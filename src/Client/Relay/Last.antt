-- ===== src/Client/Relay/Last.antt =====
-- The closing frame of a relayed connection.
use nokkud.Base.{
  is_empty, Bytes, ℕ, refl, Bool, true, false, Option, List, [], arith, ◌≡◌, ◌||◌, ◌∷◌, ◌++◌,
}
use nokkud.Client.Relay.{
  RelayConn, Request, write, close, expire, set_deadline, relay_conn, send_closed, send_data,
}

-- The calls on a connection, with what the stream and the lock answer.
pub data Call : Type 0 where
  writes : Bool → Bytes → Call
  sets_deadline : Option ℕ → Call
  expires : ℕ → Call
  closes : Bool → Bool → Call

unfoldable pub perform : Call → RelayConn → RelayConn
perform (writes takes p) c = (write takes p c).0
perform (sets_deadline t) c = set_deadline t c
perform (expires now) c = expire now c
perform (closes locks takes) c = close locks takes c

unfoldable pub perform_all : List Call → RelayConn → RelayConn
unfolding perform
perform_all [] c = c
perform_all (x ∷ xs) c = perform_all xs (perform x c)

-- No closing frame but as the last one.
abbrev pub closes_last : List Request → Bool
closes_last [] = true
closes_last (send_closed ∷ rs) = is_empty rs
closes_last (send_data d ∷ rs) = closes_last rs

abbrev no_closing : List Request → Bool
no_closing [] = true
no_closing (send_closed ∷ rs) = false
no_closing (send_data d ∷ rs) = no_closing rs

no_closing-data :
    (rs : List Request) (d : Bytes)
    → no_closing rs ≡ true
    → no_closing (rs ++ (send_data d ∷ [])) ≡ true
no_closing-data [] d h = refl
no_closing-data (send_closed ∷ rs) d h = ground arith
no_closing-data (send_data e ∷ rs) d h = no_closing-data rs d h

closes_last-append :
    (rs : List Request) → no_closing rs ≡ true → closes_last (rs ++ (send_closed ∷ [])) ≡ true
closes_last-append [] h = refl
closes_last-append (send_closed ∷ rs) h = ground arith
closes_last-append (send_data e ∷ rs) h = closes_last-append rs h

closes_last-none : (rs : List Request) → no_closing rs ≡ true → closes_last rs ≡ true
closes_last-none [] h = refl
closes_last-none (send_closed ∷ rs) h = ground arith
closes_last-none (send_data e ∷ rs) h = closes_last-none rs h

abbrev Good : RelayConn → Type 0
Good c = (c.closed || no_closing c.sent ≡ true) × (closes_last c.sent ≡ true)

perform-Good : (x : Call) (c : RelayConn) → Good c → Good (perform x c)
unfolding perform write set_deadline expire close
perform-Good (writes takes p) c h =
    ground (arith, no_closing-data c.sent p, closes_last-none (c.sent ++ (send_data p ∷ [])))
perform-Good (sets_deadline t) c h = h
perform-Good (expires now) c h = ground arith
perform-Good (closes locks takes) c h = ground (arith, closes_last-append c.sent)

perform_all-Good : (xs : List Call) (c : RelayConn) → Good c → Good (perform_all xs c)
unfolding perform_all
perform_all-Good [] c h = h
perform_all-Good (x ∷ xs) c h = perform_all-Good xs (perform x c) (perform-Good x c h)

-- However writes, closings and deadlines follow each other, the closing frame is sent at most once,
-- and no frame after it.
pub closed_is_last : (xs : List Call) → closes_last (perform_all xs relay_conn).sent ≡ true
closed_is_last xs = (perform_all-Good xs relay_conn (refl, refl)).1
