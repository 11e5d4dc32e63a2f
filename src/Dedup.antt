-- ===== src/Dedup.antt =====
-- The request deduplication of deduplication.go. Entries are shared by pointer and stand in a heap;
-- a timer that `Complete` has started is the key that it will delete.
pub mod Laws
pub mod Owners
pub mod Delivery
pub mod Keys
mod Examples
use text.Mathlib.Text.{◌==◌}
use klayengo.Prelude.{
  ℕ, zero, suc, ◌+◌, Bool, true, false, if◌then◌else◌, String, Option, none, some, List, [], ◌∷◌,
  ◌||◌, ◌==◌ as nat_eq,
}
use klayengo.Prelude.Int.{ℤ, pos}
use klayengo.Prelude.Int64.{add64}
use klayengo.Prelude.Assoc.{lookup, insert, delete}
use klayengo.Http.{Request, Response}
use klayengo.Errors.{Error}

-- `done`: the channel is closed.
pub record DeduplicationEntry : Type 0 where
  pub response : Option Response
  pub err : Option Error
  pub done : Bool
  pub waiters : ℤ

abbrev pub Heap : Type 0
Heap = ℕ → DeduplicationEntry

pub update : Heap → ℕ → DeduplicationEntry → Heap
update heap p e q = if nat_eq q p then e else heap q

pub record DeduplicationTracker : Type 0 where
  pub entries : List (String × ℕ)
  pub heap : Heap
  pub next : ℕ
  pub timers : List String

abbrev pub fresh_entry : DeduplicationEntry
fresh_entry = record { response = none; err = none; done = false; waiters = pos 1 }

unfoldable pub new_deduplication_tracker : DeduplicationTracker
new_deduplication_tracker = record { entries = []; heap = λ p. fresh_entry; next = 0; timers = [] }

pub joined : DeduplicationEntry → DeduplicationEntry
joined e = record e { waiters = add64 e.waiters (pos 1) }

get_or_create_by : Option ℕ → DeduplicationTracker → String → DeduplicationTracker × ℕ × Bool
unfolding update joined insert
get_or_create_by (some p) t key =
    (record t { heap = update t.heap p (joined (t.heap p)) }, p, false)
get_or_create_by none t key = (
  record t {
    entries = insert key t.next t.entries;
    heap = update t.heap t.next fresh_entry;
    next = t.next + 1;
  },
  t.next,
  true,
)

-- The tracker, the entry and whether the caller owns it.
unfoldable pub get_or_create_entry : DeduplicationTracker → String → DeduplicationTracker × ℕ × Bool
unfolding get_or_create_by lookup
get_or_create_entry t key = get_or_create_by (lookup key t.entries) t key

complete_by :
    Option ℕ
    → DeduplicationTracker
    → String
    → Option Response
    → Option Error
    → Option DeduplicationTracker
unfolding update
complete_by none t key resp err = some t
complete_by (some p) t key resp err =
    if (t.heap p).done
    then none
    else some (record t {
      heap = update t.heap p (record (t.heap p) { response = resp; err = err; done = true });
      timers = key ∷ t.timers;
    })

-- `none` for the fault of closing a closed channel.
unfoldable pub complete :
    DeduplicationTracker → String → Option Response → Option Error → Option DeduplicationTracker
unfolding complete_by lookup
complete t key resp err = complete_by (lookup key t.entries) t key resp err

pub remove_timer : String → List String → List String
remove_timer key [] = []
remove_timer key (k ∷ ks) = if k == key then ks else k ∷ remove_timer key ks

pub has_timer : String → List String → Bool
has_timer key [] = false
has_timer key (k ∷ ks) = k == key || has_timer key ks

-- The function that `time.AfterFunc` runs, for a timer that was started; nothing for another key.
unfoldable pub expire : DeduplicationTracker → String → DeduplicationTracker
unfolding has_timer remove_timer delete
expire t key =
    if has_timer key t.timers
    then record t { timers = remove_timer key t.timers; entries = delete key t.entries }
    else t

-- What `Wait` returns once the channel is closed; `none` while it blocks.
unfoldable pub wait : DeduplicationTracker → ℕ → Option (Option Response × Option Error)
wait t p = if (t.heap p).done then some ((t.heap p).response, (t.heap p).err) else none

unfoldable pub default_deduplication_condition : Request → Bool
default_deduplication_condition req =
    req.method == "GET" || (req.method == "HEAD" || req.method == "OPTIONS")
