-- ===== src/Backend/Retention.antt =====
-- What pruning drops: the loop of `_prune_terminal_records_locked` over sorted candidates.
use infly.Prelude.{
  ℕ, suc, ◌+◌, Bool, true, false, ◌≡◌, ◌≢◌, refl, ap, Option, none, some, String, List, [], ◌∷◌,
  All, AllPairs, All-mono, arith, length, if◌then◌else◌,
}
use infly.Prelude.Exec.{ok}
use infly.Dict.{Dict, get, remove, contains, IsUnique, remove_absent}
use infly.Core.Contracts.{TaskRecord, is_terminal}
use infly.Backend.{Backend, Finish, Candidate, candidates}
use infly.Backend.Invariant.{terminal_at}

-- The number of terminal records.
abbrev pub count_terminal : Dict TaskRecord → ℕ
count_terminal [] = 0
count_terminal ((k, r) ∷ d) =
    if is_terminal r.status then suc (count_terminal d) else count_terminal d

pub count_terminal-remove :
    (k : String) (d : Dict TaskRecord)
    → IsUnique d
    → terminal_at k d ≡ true
    → count_terminal (remove k d) + 1 ≡ count_terminal d
unfolding get remove
count_terminal-remove k [] u h = ground arith
count_terminal-remove k ((j, r) ∷ d) u h =
    ground (arith, count_terminal-remove k d u.1, remove_absent k d)

abbrev pub Differ : Candidate → Candidate → Type 0
Differ c d = c.task_id ≢ d.task_id

-- The key of a candidate is what the backend knows of its task.
pub record IsKeyed (b : Backend) (d : Dict TaskRecord) (c : Candidate) : Type 0 where
  pub final : terminal_at c.task_id d ≡ true
  pub finish : get c.task_id b.terminal_finished_at ≡ some c.finish
  pub unread : c.unread ≡ (if contains c.task_id b.read_terminal_tasks then 0 else 1)

-- The candidates among some records.
pub record Found (b : Backend) (d : Dict TaskRecord) : Type 0 where
  pub list : List Candidate
  pub result : candidates b d ≡ ok list
  pub are_keyed : All (IsKeyed b d) list
  pub distinct : AllPairs Differ list
  pub all : length list ≡ count_terminal d

IsKeyed-cons :
    (b : Backend) (k : String) (r : TaskRecord) (d : Dict TaskRecord)
    → get k d ≡ none
    → (c : Candidate) → IsKeyed b d c
    → IsKeyed b ((k, r) ∷ d) c
unfolding get
IsKeyed-cons b k r d absent c i = record {
  final = ground (arith, i.final);
  finish = i.finish;
  unread = i.unread;
}

head_differs :
    (b : Backend) (k : String) (d : Dict TaskRecord)
    → get k d ≡ none
    → (c : Candidate) → IsKeyed b d c
    → k ≢ c.task_id
head_differs b k d absent c i = λ e. ground (arith, i.final)

-- No key is missing while every terminal record among `d` has a finish time.
pub candidates-Found :
    (b : Backend) (d : Dict TaskRecord)
    → IsUnique d
    → ((k : String) → terminal_at k d ≡ true → contains k b.terminal_finished_at ≡ true)
    → Found b d
unfolding candidates get
candidates-Found b [] u known = record {
  list = [];
  result = refl;
  are_keyed = tt;
  distinct = tt;
  all = refl;
}
candidates-Found b ((k, r) ∷ d) u known =
    go (candidates-Found b d u.1 (λ j h. known j (ground (arith, h)))) (is_terminal r.status) refl
      (get k b.terminal_finished_at) refl
  where
    go :
        Found b d
        → (t : Bool) → is_terminal r.status ≡ t
        → (o : Option Finish) → get k b.terminal_finished_at ≡ o
        → Found b ((k, r) ∷ d)
    go f false live o e = record {
      list = f.list;
      result = rw live f.result;
      are_keyed = All-mono _ _ (IsKeyed-cons b k r d u.0) f.list f.are_keyed;
      distinct = f.distinct;
      all = rw live f.all;
    }
    go f true final none e = absurd (ground (arith, known k))
    go f true final (some x) e =
        let c : Candidate = record {
          task_id = k;
          unread = if contains k b.read_terminal_tasks then 0 else 1;
          finish = x;
        } in
        record {
          list = c ∷ f.list;
          result = rw (final, e, f.result) refl;
          are_keyed = (
            record { final = ground (arith, final); finish = e; unread = refl },
            All-mono _ _ (IsKeyed-cons b k r d u.0) f.list f.are_keyed,
          );
          distinct = (All-mono _ _ (head_differs b k d u.0) f.list f.are_keyed, f.distinct);
          all = rw final (ap suc f.all);
        }
