-- ===== src/Pool/Ends.antt =====
-- How a task ends: its result arrives, or the pool closes.
use infly.Prelude.{
  ℕ, ◌<◌, ◌≡◌, ◌≢◌, refl, ap, subst, ◌∙◌, inl, inr, true, false, none, some, String, [], arith,
  if_ind, text_dec,
}
use infly.Prelude.Exec.{ok, raise}
use infly.Dict.{Dict, get, get-remove}
use infly.Core.Errors.{
  Exception, ErrorCode, Outcome, platform_error, code_value, message_of, value_error, type_error,
  key_error, other, success, not_found, handler_not_found, overloaded, timeout, worker_unavailable,
  invalid_argument, invalid_configuration, invalid_state, invalid_request, internal_error,
}
use infly.Core.Contracts.{TaskResult}
use infly.Prelude.{All, Option, List, ◌∷◌, sym}
use infly.Dict.{values}
use infly.Core.Errors.{Code, error_code, text_code, foreign_code, coded}
use infly.Pool.Results.{is_assignment}
use infly.Pool.Membership.{IsOpen, fail_futures_abandoned}
use infly.Pool.State.{
  is_in, Assignment, System, Worker, Pool, Promises, same_assignment, is_done, settle_once,
}
use infly.Pool.Messages.{
  WorkerResultMessage, dump_error_code, code_of_value, load_error_code, outcome_of, code_of,
  reply_of, or_else, or_internal,
}
use infly.Pool.Results.{receive_result, accept_result, settle_found}
use infly.Pool.Supervision.{
  fail_all_pending, stop_process, stop_each, stop_rest, stop_workers, begin_shutdown,
}
use infly.Pool.Closing.{
  begin_close, finish_close, close, complete_close, ping_all, stop_pinged, closed_down,
  closed_early,
}
use infly.Pool.Ledger.{LedgerIsValid, Kept}
use infly.Pool.Validity.{PoolIsValid}
use infly.Pool.Restarts.{
  begin_shutdown-IsValid, stop_workers-IsValid, stop_process-id, complete_close-IsValid,
}

abbrev pub sender : WorkerResultMessage → Assignment
sender item = record { worker_id = item.worker_id; generation = item.generation }

-- What a message is to do: the future of the task, if it is not done, is set to what the reply says,
-- and the task is over; but for another assignment than the sender's, nothing.
pub record Received (item : WorkerResultMessage) (p q : Pool) : Type 0 where
  pub taken :
      (i : ℕ)
      → get item.task_id p.assignments ≡ some (sender item)
      → get item.task_id p.futures ≡ some i
      → (get item.task_id q.assignments ≡ none)
        × (get item.task_id q.futures ≡ none)
        × (q.promises ≡ settle_once i (outcome_of item.reply) p.promises)
  pub ignored : get item.task_id p.assignments ≢ some (sender item) → q ≡ p

same_of_assignment : (a b : Assignment) → same_assignment a b ≡ true → a ≡ b
unfolding same_assignment
same_of_assignment a b h = ground arith

is_sender :
    (o : Option Assignment) (item : WorkerResultMessage)
    → is_assignment o item ≡ true
    → o ≡ some (sender item)
is_sender none item h = absurd cc
is_sender (some a) item h = ap (λ (x : Assignment). some x) (same_of_assignment a (sender item) h)

-- A message of the worker and generation to which its task is assigned takes the task out of the
-- assignments and the futures, and sets its future, unless that is done, to what the reply says; a
-- message for a task that is assigned to another worker or generation, or to none, changes nothing.
pub receive_result-Received :
    (item : WorkerResultMessage) (p : Pool) → Received item p (receive_result item p)
unfolding receive_result accept_result same_assignment settle_found
receive_result-Received item p = record {
  taken = λ i owner future. (
    ground (arith, get-remove item.task_id item.task_id p.assignments),
    ground (arith, get-remove item.task_id item.task_id p.futures),
    ground arith,
  );
  ignored = λ other.
      if_ind (λ (q : Pool). q ≡ p) (is_assignment (get item.task_id p.assignments) item)
        (λ own. absurd (other (is_sender (get item.task_id p.assignments) item own))) (λ _. refl);
}

all_done :
    (ps : Promises)
    → LedgerIsValid [] ps
    → ps.abandoned ≡ []
    → (i : ℕ) → i < ps.created
    → is_done i ps.settled ≡ true
unfolding get is_in
all_done ps l none_lost i below = go (l.kept i)
  where
    go : Kept i [] ps → is_done i ps.settled ≡ true
    go (inl new) = absurd (omega arith)
    go (inr (inl done)) = done
    go (inr (inr (inl (k, e)))) = absurd cc
    go (inr (inr (inr lost))) = absurd (ground arith)

ping_all_open : (ws : List Worker) → All IsOpen ws → ping_all ws ≡ ok tt
unfolding ping_all
ping_all_open [] a = refl
ping_all_open (w ∷ ws) a = ground (arith, a.0, ping_all_open ws a.1)

stop_process_open : (sys : System) (w : Worker) → IsOpen w → (stop_process sys w).0 ≡ ok tt
unfolding stop_process
stop_process_open sys w o = ground arith

stop_each_open :
    (sys : System) (d : Dict Worker)
    → All IsOpen (values d)
    → (stop_each (stop_process sys) d).0 ≡ ok tt
unfolding stop_each stop_rest
stop_each_open sys [] a = refl
stop_each_open sys ((k, w) ∷ d) a =
    go (stop_process sys w) (stop_process_open sys w a.0) (stop_each_open sys d a.1)
  where
    go :
        (r : Outcome (Unit {0}) × Worker)
        → r.0 ≡ ok tt
        → (stop_each (stop_process sys) d).0 ≡ ok tt
        → (stop_rest k r d (stop_each (stop_process sys) d)).0 ≡ ok tt
    go (raise e, x) h ih = absurd cc
    go (ok t, x) h ih = ih

-- What a `close` leaves that nothing interrupts.
abbrev pub closed_pool : System → Pool → Pool
closed_pool sys p = complete_close (stop_workers (stop_process sys) p).1

closed_down_ok : (p : Pool) → closed_down (ok tt, p) ≡ (ok tt, complete_close p)
unfolding closed_down
closed_down_ok p = refl

finish_close_open :
    (sys : System) (p : Pool)
    → All IsOpen (values p.workers)
    → finish_close sys p ≡ (ok tt, closed_pool sys p)
unfolding finish_close stop_pinged stop_workers
finish_close_open sys p a =
    rw (ping_all_open (values p.workers) a)
      (go (stop_each (stop_process sys) p.workers) (stop_each_open sys p.workers a))
  where
    go :
        (r : Outcome (Unit {0}) × Dict Worker)
        → r.0 ≡ ok tt
        → closed_down (r.0, record p { workers = r.1 })
          ≡ (ok tt, complete_close (record p { workers = r.1 }))
    go (raise e, d) h = absurd cc
    go (ok t, d) h = closed_down_ok (record p { workers = d })

begin_close_open : (p : Pool) → p.close_complete ≡ false → begin_close p ≡ begin_shutdown p
unfolding begin_close
begin_close_open p open_ =
    if_ind (λ (q : Pool). q ≡ begin_shutdown p) p.close_complete (λ done. absurd cc) (λ _. refl)

close_open :
    (sys : System) (p : Pool)
    → p.close_complete ≡ false
    → All IsOpen (values p.workers)
    → close sys p ≡ (ok tt, closed_pool sys (begin_shutdown p))
unfolding close
close_open sys p open_ a =
    if_ind (λ (q : Outcome (Unit {0}) × Pool). q ≡ (ok tt, closed_pool sys (begin_shutdown p)))
      p.close_complete (λ done. absurd cc)
      (λ _.
        ap (finish_close sys) (begin_close_open p open_)
        ∙ finish_close_open sys (begin_shutdown p) a)

closed_pool-cleared :
    (sys : System) (p : Pool)
    → ((closed_pool sys p).futures ≡ [])
      × ((closed_pool sys p).close_complete ≡ true)
      × ((closed_pool sys p).promises.abandoned ≡ p.promises.abandoned)
unfolding complete_close fail_all_pending stop_workers
closed_pool-cleared sys p =
    (refl, refl, fail_futures_abandoned (values p.futures) closed_early p.promises)

closed_pool-IsValid :
    (sys : System) (p : Pool) → PoolIsValid p → PoolIsValid (closed_pool sys (begin_shutdown p))
closed_pool-IsValid sys p v =
    complete_close-IsValid (stop_workers (stop_process sys) (begin_shutdown p)).1 (
      stop_workers-IsValid (stop_process sys) (stop_process-id sys) (begin_shutdown p) refl
        (begin_shutdown-IsValid p v))

close_again : (sys : System) (p : Pool) → p.close_complete ≡ true → close sys p ≡ (ok tt, p)
unfolding close
close_again sys p done =
    if_ind (λ (q : Outcome (Unit {0}) × Pool). q ≡ (ok tt, p)) p.close_complete (λ _. refl)
      (λ open_. absurd cc)

-- A call of `close` that ends all futures for good.
pub record Closes (sys : System) (r : Outcome (Unit {0}) × Pool) : Type 0 where
  pub returns : r.0 ≡ ok tt
  pub ended : (i : ℕ) → i < r.1.promises.created → is_done i r.1.promises.settled ≡ true
  pub again : close sys r.1 ≡ (ok tt, r.1)

-- A first `close` of a valid pool in which no process of a worker was closed before, and from which
-- no unload has abandoned a future, raises nothing; behind it every future that was ever made is
-- done, and another `close` changes nothing.
pub close-Closes :
    (sys : System) (p : Pool)
    → PoolIsValid p
    → p.close_complete ≡ false
    → All IsOpen (values p.workers)
    → p.promises.abandoned ≡ []
    → Closes sys (close sys p)
close-Closes sys p v open_ a none_lost = subst (Closes sys) (sym (close_open sys p open_ a)) (
    let q = closed_pool sys (begin_shutdown p) in
    let cleared = closed_pool-cleared sys (begin_shutdown p) in
    let valid : PoolIsValid q = closed_pool-IsValid sys p v in
    record {
      returns = refl;
      ended =
          all_done q.promises
            (subst (λ (fs : Dict ℕ). LedgerIsValid fs q.promises) cleared.0 valid.ledger)
            (cleared.2 ∙ none_lost);
      again = close_again sys q cleared.1;
    })

load-dump : (c : ErrorCode) → load_error_code (dump_error_code (error_code c)) ≡ c
unfolding load_error_code dump_error_code code_value code_of_value text_dec
load-dump success = refl
load-dump not_found = refl
load-dump handler_not_found = refl
load-dump overloaded = refl
load-dump timeout = refl
load-dump worker_unavailable = refl
load-dump invalid_argument = refl
load-dump invalid_configuration = refl
load-dump invalid_state = refl
load-dump invalid_request = refl
load-dump internal_error = refl

load-dump_text :
    (s : String) → load_error_code (dump_error_code (text_code s)) ≡ or_internal (code_of_value s)
unfolding load_error_code dump_error_code
load-dump_text s = refl

load-dump_foreign : load_error_code (dump_error_code foreign_code) ≡ internal_error
unfolding load_error_code dump_error_code
load-dump_foreign = refl

-- What the attribute `code` of an exception means to the caller, in whose process it is an `ErrorCode`.
abbrev pub meant : Code → ErrorCode
meant (error_code c) = c
meant (text_code s) = or_internal (code_of_value s)
meant foreign_code = internal_error

-- What an outcome is for the caller, in whose process there are `PlatformError`s only.
abbrev pub as_platform : Outcome TaskResult → Outcome TaskResult
as_platform (ok r) = ok r
as_platform (raise (platform_error c m)) = raise (platform_error c m)
as_platform (raise (coded c m)) = raise (platform_error (meant c) m)
as_platform (raise e) = raise (platform_error internal_error (message_of e))

abbrev pub HasText : Outcome TaskResult → Type 0
HasText (ok r) = Unit {0}
HasText (raise e) = message_of e ≢ ""

kept_text : (s fallback : String) → s ≢ "" → or_else (some s) fallback ≡ s
unfolding or_else
kept_text s fallback n = ground arith

load-dump_meant : (c : Code) → load_error_code (dump_error_code c) ≡ meant c
load-dump_meant (error_code c) = load-dump c
load-dump_meant (text_code s) = load-dump_text s
load-dump_meant foreign_code = load-dump_foreign

failed_reply :
    (e : Exception) (c : Code)
    → code_of e ≡ c
    → message_of e ≢ ""
    → outcome_of (reply_of (raise e)) ≡ raise (platform_error (meant c) (message_of e))
unfolding outcome_of reply_of
failed_reply e c h n =
    rw (h, load-dump_meant c, kept_text (message_of e) "Unknown worker error" n) refl

-- A result, or an exception whose text is not empty, comes back from the message of a worker as it
-- was: a `PlatformError` with its code and text; another exception with the text, and with the code
-- that its attribute `code` names, if it has one that names a member of `ErrorCode`, else as an
-- internal error.
pub outcome_of-reply_of :
    (o : Outcome TaskResult) → HasText o → outcome_of (reply_of o) ≡ as_platform o
unfolding outcome_of reply_of code_of message_of
outcome_of-reply_of (ok r) t = refl
outcome_of-reply_of (raise e) t = sent e t
  where
    sent :
        (e : Exception)
        → message_of e ≢ ""
        → outcome_of (reply_of (raise e)) ≡ as_platform (raise e)
    sent (platform_error c m) n = failed_reply (platform_error c m) (error_code c) refl n
    sent (coded c m) n = failed_reply (coded c m) c refl n
    sent (value_error m) n = failed_reply (value_error m) (error_code internal_error) refl n
    sent (type_error m) n = failed_reply (type_error m) (error_code internal_error) refl n
    sent (key_error m) n = failed_reply (key_error m) (error_code internal_error) refl n
    sent (other m) n = failed_reply (other m) (error_code internal_error) refl n
