-- ===== src/Httpapi/Wrappers/Recorded.antt =====
-- The status that the metrics and the access log record (responseWriter of
-- internal/httpapi/middleware.go) against the one that net/http sends.
use agentic_coop_db.Prelude.{ℕ, ◌+◌, ◌≤◌, ◌≡◌, refl, arith, true, List, [], ◌∷◌}
use agentic_coop_db.Httpapi.Wrappers.{
  WriterCall, write_header, write_bytes, ResponseWriter, wrap_response_writer, call_writer,
  run_writer,
}

-- net/http: the first header is sent, and a Write in front of it sends 200, as does the end.
abbrev pub sent_status : List WriterCall → ℕ
sent_status [] = 200
sent_status (write_header code ∷ calls) = code
sent_status (write_bytes n ∷ calls) = 200

abbrev pub headers : List WriterCall → ℕ
headers [] = 0
headers (write_header code ∷ calls) = 1 + headers calls
headers (write_bytes n ∷ calls) = headers calls

abbrev pub total_bytes : List WriterCall → ℕ
total_bytes [] = 0
total_bytes (write_header code ∷ calls) = total_bytes calls
total_bytes (write_bytes n ∷ calls) = n + total_bytes calls

settled :
    (w : ResponseWriter) (calls : List WriterCall)
    → w.wrote_header ≡ true
    → ((run_writer w calls).0.status ≡ w.status)
      × (headers (run_writer w calls).1 ≡ 0)
      × ((run_writer w calls).0.bytes_written ≡ w.bytes_written + total_bytes calls)
unfolding run_writer call_writer
settled w [] h = (refl, refl, omega arith)
settled w (write_header code ∷ calls) h = ground (arith, settled w calls h)
settled w (write_bytes n ∷ calls) h =
    let after =
      settled (record w { wrote_header = true; bytes_written = w.bytes_written + n }) calls refl in
    ground arith

-- Whatever a handler calls, in whatever order: the recorded status is the one that net/http makes of
-- the handler's own calls and of those that reach it, at most one header reaches it, and the recorded
-- bytes are all that it took. A status of 1xx, which net/http does not take for final, is left aside.
pub run_writer_lem :
    (calls : List WriterCall)
    → ((run_writer wrap_response_writer calls).0.status ≡ sent_status calls)
      × (sent_status (run_writer wrap_response_writer calls).1 ≡ sent_status calls)
      × (headers (run_writer wrap_response_writer calls).1 ≤ 1)
      × ((run_writer wrap_response_writer calls).0.bytes_written ≡ total_bytes calls)
unfolding run_writer call_writer wrap_response_writer
run_writer_lem [] = (refl, refl, omega arith, refl)
run_writer_lem (write_header code ∷ calls) =
    let after =
      settled (record { status = code; bytes_written = 0; wrote_header = true }) calls refl in
    (ground arith, refl, ground arith, ground arith)
run_writer_lem (write_bytes n ∷ calls) =
    let after =
      settled (record { status = 200; bytes_written = 0 + n; wrote_header = true }) calls refl in
    (ground arith, refl, ground arith, ground arith)
