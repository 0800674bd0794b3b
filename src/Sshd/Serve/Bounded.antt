-- ===== src/Sshd/Serve/Bounded.antt =====
-- The connection slots and the delay of the accept loop.
use nokkud.Base.{
  ltb, Bool-cases, All, All-append, ℕ, refl, ap, inl, inr, Bool, true, false, List, [], arith, ◌-◌,
  ◌≤◌, ◌≡◌, ◌∷◌, ◌==◌, if◌then◌else◌, nat_eq, bytes_eq,
}
use nokkud.Sshd.Serve.{
  Accepted, ServeEvent, Serving, accept_backoff, accept_failed, accepted, handler_ends,
  listener_closed, max_conns, new_serving, next_delay, relayed, release_conn, round, serve_event,
  serve_events, serve_round, take_conn,
}

-- The slots are those of the handlers that run, and the delays stay below their bound.
pub record IsBounded (s : Serving) : Type 0 where
  pub counted : s.conns ≡ s.handling
  pub bounded : s.conns ≤ max_conns
  pub delay : s.delay ≤ 1000
  pub slept : All (λ d. (accept_backoff ≤ d) × (d ≤ 1000)) s.slept

next_delay-bounds : (d : ℕ) → (accept_backoff ≤ next_delay d) × (next_delay d ≤ 1000)
unfolding next_delay
next_delay-bounds d = (omega arith, omega arith)

take_conn-IsBounded : (s : Serving) → IsBounded s → IsBounded (take_conn s)
unfolding take_conn
take_conn-IsBounded s v = elim (Bool-cases (ltb s.conns max_conns)) [
  | inl e ↦ rw (e) (record {
    counted = ground (arith, v.counted);
    bounded = ground arith;
    delay = v.delay;
    slept = v.slept;
  })
  | inr e ↦
      rw (e) (record { counted = v.counted; bounded = v.bounded; delay = v.delay; slept = v.slept })
]

serve_round-IsBounded : (a : Accepted) (s : Serving) → IsBounded s → IsBounded (serve_round a s)
unfolding serve_round
serve_round-IsBounded listener_closed s v = record {
  counted = v.counted;
  bounded = v.bounded;
  delay = v.delay;
  slept = v.slept;
}
serve_round-IsBounded accept_failed s v = record {
  counted = v.counted;
  bounded = v.bounded;
  delay = (next_delay-bounds s.delay).1;
  slept =
      All-append (λ d. (accept_backoff ≤ d) × (d ≤ 1000)) s.slept (next_delay s.delay ∷ []) v.slept
        (next_delay-bounds s.delay, tt);
}
serve_round-IsBounded accepted s v =
    take_conn-IsBounded (record s { delay = 0 })
      (record { counted = v.counted; bounded = v.bounded; delay = omega arith; slept = v.slept })

either-IsBounded :
    (b : Bool) {s t : Serving} → IsBounded s → IsBounded t → IsBounded (if b then s else t)
either-IsBounded true v w = v
either-IsBounded false v w = w

serve_event-IsBounded : (e : ServeEvent) (s : Serving) → IsBounded s → IsBounded (serve_event e s)
unfolding serve_event release_conn
serve_event-IsBounded (round a) s v = either-IsBounded s.returned v (serve_round-IsBounded a s v)
serve_event-IsBounded relayed s v = take_conn-IsBounded s v
serve_event-IsBounded handler_ends s v = either-IsBounded (s.handling == 0) v (record {
  counted = ap (λ n. n - 1) v.counted;
  bounded = ground (arith, v.bounded);
  delay = v.delay;
  slept = v.slept;
})

-- Whatever the listener gives and whichever handlers end, relayed connections included, the taken
-- slots are those of the handlers that run and at most 100, and every sleep of the accept loop is
-- between ten milliseconds and a second.
pub serve_events-IsBounded : (es : List ServeEvent) → IsBounded (serve_events es new_serving)
unfolding serve_events new_serving
serve_events-IsBounded es = go es new_serving start
  where
    start : IsBounded new_serving
    start = record { counted = refl; bounded = omega arith; delay = omega arith; slept = tt }

    go : (es' : List ServeEvent) (s : Serving) → IsBounded s → IsBounded (serve_events es' s)
    go [] s v = v
    go (e ∷ es') s v = go es' (serve_event e s) (serve_event-IsBounded e s v)
