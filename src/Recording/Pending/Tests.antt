-- ===== src/Recording/Pending/Tests.antt =====
-- Three recordings: one is whole, one is being written, and one meets a full workspace.
use nokkud.Base.{
  Bytes, codes, bytes_beq, get_or, pos, ℕ, refl, inl, Bool, none, some, [], ◌≡◌, ◌∷◌, ◌==◌,
  if◌then◌else◌, nat_eq, bytes_eq,
}
use nokkud.Recording.Pending.Settled.{Stops, upload_pending-Stops}
use nokkud.Recording.Pending.Whole.{upload_file-IsWhole, IsWhole}
use nokkud.Recording.Pending.{
  chunk, final, meta, Errors, Source, code_invalid_argument, meta_of, read_header, real_error,
  send_error, upload_end, upload_file, upload_pending, upload_reads, upload_stream,
}

abbrev connect_errors : Errors
connect_errors = record {
  Err = ℕ;
  code_of = λ code. code;
  join = λ err answer. get_or answer err;
  invalid = λ err. code_invalid_argument;
}

abbrev whole_file : Source connect_errors
whole_file = record {
  line = inl (codes "{}");
  unmarshal = λ line. inl (record {
    session_id = codes "id";
    user = codes "ann";
    principal = codes "admin";
    timestamp = pos 7;
  });
  no_session_id = 2;
  opened = none;
  stream = none;
  reads = codes "ab" ∷ [] ∷ codes "c" ∷ [];
  read_error = none;
  send = λ n. none;
  answer = none;
}

abbrev refused_file : Source connect_errors
refused_file = record whole_file { send = λ n. if n == 1 then some 2 else none; answer = some 8 }

abbrev file_of : Bytes → Source connect_errors
file_of path = if path == codes "3" then refused_file else whole_file

abbrev is_active : Bytes → Bool
is_active path = path == codes "2"

sent_whole :
    (upload_file connect_errors whole_file).0
    ≡ meta (codes "id") (codes "ann") (codes "admin") (some (pos 7))
      ∷ chunk (codes "ab")
      ∷ chunk (codes "c")
      ∷ final
      ∷ []
unfolding upload_file read_header upload_stream upload_reads upload_end send_error codes meta_of
sent_whole = refl

stopped :
    upload_pending connect_errors is_active file_of
      (codes "1" ∷ codes "2" ∷ codes "3" ∷ codes "4" ∷ [])
    ≡ (codes "1" ∷ [], some (codes "3", 8))
unfolding upload_file read_header upload_stream upload_reads upload_end send_error codes meta_of
    upload_pending real_error bytes_beq
stopped = refl

upload_file-IsWhole_example : IsWhole connect_errors whole_file
unfolding upload_file read_header upload_stream upload_reads upload_end send_error codes
upload_file-IsWhole_example = upload_file-IsWhole connect_errors whole_file refl

upload_pending-Stops_example :
    Stops connect_errors is_active file_of
      (codes "1" ∷ codes "2" ∷ codes "3" ∷ [])
      (upload_pending connect_errors is_active file_of (codes "1" ∷ codes "2" ∷ codes "3" ∷ []))
upload_pending-Stops_example =
    upload_pending-Stops connect_errors is_active file_of (codes "1" ∷ codes "2" ∷ codes "3" ∷ [])
