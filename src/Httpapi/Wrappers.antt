-- ===== src/Httpapi/Wrappers.antt =====
-- internal/httpapi/middleware.go: request ids, client addresses, panics, and the writer that records the
-- status. rand.Read, the hexadecimal encoder and strconv.Itoa are parameters.
pub mod Recorded
use agentic_coop_db.Prelude.{
  ℕ, zero, suc, ◌+◌, Bool, true, false, Option, none, some, List, [], ◌∷◌, ◌++◌, Bytes, codes,
  bytes_eq, trim_space, index_byte, take, if◌then◌else◌,
}

-- The id of the client's header, or 16 random bytes in hex.
unfoldable pub request_id : (hex : Bytes → Bytes) → (random header : Bytes) → Bytes
request_id hex random header = if bytes_eq header [] then hex random else header

-- The part of X-Forwarded-For in front of a comma that is not its first byte.
unfoldable pub forwarded_ip : Bytes → Bytes
forwarded_ip fwd = elim (index_byte b',' fwd) [
  | none ↦ trim_space fwd
  | some zero ↦ trim_space fwd
  | some (suc i) ↦ trim_space (take (suc i) fwd)
]

unfoldable pub real_ip :
    (trust_proxy : Bool) → (remote_addr x_real_ip x_forwarded_for : Bytes) → Bytes
real_ip false remote_addr x_real_ip x_forwarded_for = remote_addr
real_ip true remote_addr x_real_ip x_forwarded_for =
    if bytes_eq x_real_ip []
    then (if bytes_eq x_forwarded_for [] then remote_addr else forwarded_ip x_forwarded_for)
    else x_real_ip

-- How the next handler ends; `aborted` is a panic with http.ErrAbortHandler.
pub data Ending : Type 0 where
  returned aborted : Ending
  panicked : (value : Bytes) → Ending

-- What Recoverer makes of it: a panic again, or an answer of its own behind what was written.
pub data Recovered : Type 0 where
  nothing : Recovered
  panics_again : Recovered
  http_error : (status : ℕ) → (text : Bytes) → Recovered

unfoldable pub recoverer : Ending → Recovered
recoverer returned = nothing
recoverer aborted = panics_again
recoverer (panicked value) = http_error 500 (codes "Internal Server Error")

-- A handler's call of the writer; of a Write, the bytes that the inner writer takes.
pub data WriterCall : Type 0 where
  write_header : (code : ℕ) → WriterCall
  write_bytes : (n : ℕ) → WriterCall

pub record ResponseWriter : Type 0 where
  pub status : ℕ
  pub bytes_written : ℕ
  pub wrote_header : Bool

unfoldable pub wrap_response_writer : ResponseWriter
wrap_response_writer = record { status = 200; bytes_written = 0; wrote_header = false }

-- The calls that reach the inner writer.
unfoldable pub call_writer : ResponseWriter → WriterCall → ResponseWriter × List WriterCall
call_writer w (write_header code) =
    if w.wrote_header
    then (w, [])
    else (record w { status = code; wrote_header = true }, write_header code ∷ [])
call_writer w (write_bytes n) =
    (record w { wrote_header = true; bytes_written = w.bytes_written + n }, write_bytes n ∷ [])

unfoldable pub run_writer : ResponseWriter → List WriterCall → ResponseWriter × List WriterCall
run_writer w [] = (w, [])
run_writer w (c ∷ calls) =
    let (w', out) = call_writer w c in let (w'', more) = run_writer w' calls in (w'', out ++ more)

-- The labels of MetricsMiddleware: route, method and status.
unfoldable pub metric_labels :
    (itoa : ℕ → Bytes) → (path method : Bytes) → ResponseWriter → Bytes × Bytes × Bytes
metric_labels itoa path method w =
    ((if bytes_eq path [] then codes "unknown" else path), method, itoa w.status)
