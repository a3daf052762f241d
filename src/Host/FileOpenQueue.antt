-- ===== src/Host/FileOpenQueue.antt =====
-- src/host/io/file_open_queue.{h,cpp}: the files that wait to be opened. The loader is a parameter,
-- and so is the state that the loaded records are put into.
use open_image_debugger.Prelude.{
  zero, suc, if◌then◌else◌, map, ℕ, ◌+◌, ◌≡◌, refl, ◌∙◌, Bool, true, false, List, [], ◌∷◌, ◌++◌,
  length, Str, arith, append_assoc, append-nil, sym,
}
use open_image_debugger.Host.BufferModel.{BufferRecord}

-- `Expected<BufferRecord>`.
pub data Expected : Type 0 where
  value : BufferRecord → Expected
  error : Str → Expected

pub record FileOpenOutcome : Type 0 where
  pub succeeded : ℕ
  pub failed : ℕ
  pub last_error : Str
  pub last_success : Str

abbrev pub no_outcome : FileOpenOutcome
no_outcome = record { succeeded = 0; failed = 0; last_error = []; last_success = [] }

abbrev pub FileOpenQueue : Type 0
FileOpenQueue = List Str

unfoldable pub push : Str → FileOpenQueue → FileOpenQueue
push path pending = pending ++ path ∷ []

unfoldable pub push_all : List Str → FileOpenQueue → FileOpenQueue
unfolding push
push_all [] pending = pending
push_all (path ∷ paths) pending = push_all paths (push path pending)

unfoldable pub empty : FileOpenQueue → Bool
empty [] = true
empty (path ∷ rest) = false

-- The queue, the outcome and what the records went into, between two rounds of `drain`.
pub record Draining (S : Type 0) : Type 0 where
  pub pending : FileOpenQueue
  pub outcome : FileOpenOutcome
  pub sink : S

module _ {S : Type 0} (loader : Str → Expected) (upsert : BufferRecord → S → S) where
  -- What is done with the path that was taken from the front.
  unfoldable pub opened : Expected → Draining S → Draining S
  opened (value r) d = record d {
    outcome = record d.outcome {
      last_success = r.display_name;
      succeeded = d.outcome.succeeded + 1;
    };
    sink = upsert r d.sink;
  }
  opened (error e) d = record d {
    outcome = record d.outcome { last_error = e; failed = d.outcome.failed + 1 };
  }

  unfoldable pub drain_round : FileOpenQueue → Draining S → Draining S
  drain_round [] d = d
  drain_round (path ∷ rest) d = opened (loader path) (record d { pending = rest })

  -- `while (!pending_.empty())`; the fuel is the number of rounds.
  unfoldable pub drain_loop : (fuel : ℕ) → Draining S → Draining S
  drain_loop zero d = d
  drain_loop (suc fuel) d =
      let later = drain_loop fuel (drain_round d.pending d) in if empty d.pending then d else later

  unfoldable pub drain : FileOpenQueue → S → Draining S
  drain pending s =
      drain_loop (length pending) (record { pending = pending; outcome = no_outcome; sink = s })

push_all-append :
    (paths : List Str) (pending : FileOpenQueue) → push_all paths pending ≡ pending ++ paths
unfolding push_all
push_all-append [] pending = sym (append-nil pending)
push_all-append (path ∷ paths) pending =
    push_all-append paths (push path pending)
    ∙ unfold push in append_assoc pending (path ∷ []) paths

-- The records of what was loaded, and the messages where it failed.
abbrev add_record : Expected → List BufferRecord → List BufferRecord
add_record (value r) rs = r ∷ rs
add_record (error e) rs = rs

abbrev add_message : Expected → List Str → List Str
add_message (value r) messages = messages
add_message (error e) messages = e ∷ messages

unfoldable pub records_of : (loader : Str → Expected) → List Str → List BufferRecord
records_of loader [] = []
records_of loader (path ∷ paths) = add_record (loader path) (records_of loader paths)

unfoldable pub messages_of : (loader : Str → Expected) → List Str → List Str
messages_of loader [] = []
messages_of loader (path ∷ paths) = add_message (loader path) (messages_of loader paths)

-- The last of a list, or what stood there before.
unfoldable pub last_of : Str → List Str → Str
last_of before [] = before
last_of before (s ∷ rest) = last_of s rest

unfoldable pub put_all : {S : Type 0} → (upsert : BufferRecord → S → S) → List BufferRecord → S → S
put_all upsert [] s = s
put_all upsert (r ∷ rs) s = put_all upsert rs (upsert r s)

-- An empty queue, an outcome that goes on from o, and the records put.
abbrev drained :
    {S : Type 0}
    → (upsert : BufferRecord → S → S) → FileOpenOutcome
    → S
    → List BufferRecord
    → (messages : List Str) → Draining S
drained upsert o s rs messages = record {
  pending = [];
  outcome = record {
    succeeded = o.succeeded + length rs;
    failed = o.failed + length messages;
    last_error = last_of o.last_error messages;
    last_success = last_of o.last_success (map (λ r. r.display_name) rs);
  };
  sink = put_all upsert rs s;
}

module _ {S : Type 0} (loader : Str → Expected) (upsert : BufferRecord → S → S) where
  drained-opened :
      (x : Expected) (o : FileOpenOutcome) (s : S) (rs : List BufferRecord) (messages : List Str)
      → let d : Draining S =
          opened loader upsert x (record { pending = []; outcome = o; sink = s }) in
        drained upsert d.outcome d.sink rs messages
        ≡ drained upsert o s (add_record x rs) (add_message x messages)
  unfolding opened last_of put_all
  drained-opened (value r) o s rs messages =
      let count : o.succeeded + 1 + length rs ≡ o.succeeded + suc (length rs) = omega arith in
      rw count refl
  drained-opened (error e) o s rs messages =
      let count : o.failed + 1 + length messages ≡ o.failed + suc (length messages) = omega arith in
      rw count refl

  opened_then :
      (x : Expected) (pending : FileOpenQueue) (o : FileOpenOutcome) (s : S)
      → ((o : FileOpenOutcome) (s : S)
          → drain_loop loader upsert
              (length pending)
              (record { pending = pending; outcome = o; sink = s })
            ≡ drained upsert o s (records_of loader pending) (messages_of loader pending))
      → drain_loop loader upsert
          (length pending)
          (opened loader upsert x (record { pending = pending; outcome = o; sink = s }))
        ≡ drained upsert o s
            (add_record x (records_of loader pending))
            (add_message x (messages_of loader pending))
  unfolding opened
  opened_then (value r) pending o s later =
      later _ _
      ∙ drained-opened (value r) o s (records_of loader pending) (messages_of loader pending)
  opened_then (error e) pending o s later =
      later _ _
      ∙ drained-opened (error e) o s (records_of loader pending) (messages_of loader pending)

  drain_loop_lem :
      (pending : FileOpenQueue) (o : FileOpenOutcome) (s : S)
      → drain_loop loader upsert
          (length pending)
          (record { pending = pending; outcome = o; sink = s })
        ≡ drained upsert o s (records_of loader pending) (messages_of loader pending)
  unfolding drain_loop drain_round empty records_of messages_of last_of put_all
  drain_loop_lem [] o s =
      let successes : o.succeeded + 0 ≡ o.succeeded = omega arith in
      let failures : o.failed + 0 ≡ o.failed = omega arith in rw (successes, failures) refl
  drain_loop_lem (path ∷ pending) o s =
      opened_then (loader path) pending o s (drain_loop_lem pending)

  -- Draining after push_all leaves the queue empty, has put the records that the loader has for
  -- the waiting paths and then the new ones, in that order, and has counted those records and the
  -- failures, with the message of the last failure and the name of the last record.
  pub drain-push_all :
      (paths : List Str) (pending : FileOpenQueue) (s : S)
      → drain loader upsert (push_all paths pending) s ≡ record {
        pending = [];
        outcome = record {
          succeeded = length (records_of loader (pending ++ paths));
          failed = length (messages_of loader (pending ++ paths));
          last_error = last_of [] (messages_of loader (pending ++ paths));
          last_success =
              last_of [] (map (λ r. r.display_name) (records_of loader (pending ++ paths)));
        };
        sink = put_all upsert (records_of loader (pending ++ paths)) s;
      }
  unfolding drain
  drain-push_all paths pending s =
      let rs = records_of loader (pending ++ paths) in
      let messages = messages_of loader (pending ++ paths) in
      let successes : 0 + length rs ≡ length rs = omega arith in
      let failures : 0 + length messages ≡ length messages = omega arith in
      rw push_all-append
        (rw (successes, failures) at (drain_loop_lem (pending ++ paths) no_outcome s))
