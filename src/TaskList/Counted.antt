-- ===== src/TaskList/Counted.antt =====
-- The numbers on the chips of the list of tasks.
use zapi_pwa.Base.{
  ◌==◌, not, ℕ, ◌+◌, ◌≡◌, refl, sym, ◌∙◌, Bool, true, false, Bool-cases, inl, inr, Option, none,
  some, List, [], ◌∷◌, map, filter, length, All, arith,
}
use zapi_pwa.TaskList.{
  Status, opened, in_progress, resolved, closed, Task, status_eq, Counts, count_up, count_from,
  counts, shown_tasks, all_statuses, chips,
}

abbrev number : Status → List Task → ℕ
number s tasks = length (filter (λ t. status_eq t.status s) tasks)

abbrev one_if : Bool → ℕ
one_if true = 1
one_if false = 0

number_next :
    (s : Status) (t : Task) (ts : List Task)
    → number s (t ∷ ts) ≡ one_if (status_eq t.status s) + number s ts
number_next s t ts = elim (Bool-cases (status_eq t.status s)) [
  | inl same ↦ rw same (omega arith)
  | inr other ↦ rw other (omega arith)
]

counted :
    (c : Counts) (ts : List Task) (s : Status)
    → (count_from c ts).by_status s ≡ c.by_status s + number s ts
counted c [] s = omega arith
counted c (t ∷ ts) s = counted (count_up c t) ts s ∙ elim (Bool-cases (status_eq t.status s)) [
  | inl same ↦ rw same (omega arith)
  | inr other ↦ rw other refl
]

total_kept : (c : Counts) (ts : List Task) → (count_from c ts).total ≡ c.total
total_kept c [] = refl
total_kept c (t ∷ ts) = total_kept (count_up c t) ts

-- A task has one of the four statuses.
one_status :
    (s : Status)
    → one_if (status_eq s opened)
        + one_if (status_eq s in_progress)
        + one_if (status_eq s resolved)
        + one_if (status_eq s closed)
      ≡ 1
one_status opened = refl
one_status in_progress = refl
one_status resolved = refl
one_status closed = refl

numbers_sum :
    (ts : List Task)
    → number opened ts + number in_progress ts + number resolved ts + number closed ts ≡ length ts
numbers_sum [] = refl
numbers_sum (t ∷ ts) = omega (
  arith,
  number_next opened t ts,
  number_next in_progress t ts,
  number_next resolved t ts,
  number_next closed t ts,
  one_status t.status,
  numbers_sum ts,
)

by_status_number : (tasks : List Task) (s : Status) → (counts tasks).by_status s ≡ number s tasks
unfolding counts
by_status_number tasks s = counted _ tasks s ∙ omega arith

shown_number :
    (tasks : List Task) (s : Status)
    → length (shown_tasks (some s) tasks) ≡ (counts tasks).by_status s
unfolding shown_tasks
shown_number tasks s = sym (by_status_number tasks s)

shown_total : (tasks : List Task) → length (shown_tasks none tasks) ≡ (counts tasks).total
unfolding shown_tasks counts
shown_total tasks = sym (total_kept _ tasks)

All-chips :
    (P : Option Status × ℕ → Type 0) (f : Status → Option Status × ℕ) (p : Status → Bool)
    (ss : List Status)
    → ((s : Status) → P (f s))
    → All P (map f (filter p ss))
All-chips P f p [] h = tt
All-chips P f p (s ∷ ss) h = elim (Bool-cases (p s)) [
  | inl kept ↦ rw kept (h s, All-chips P f p ss h)
  | inr left ↦ rw left (All-chips P f p ss h)
]

-- Each chip of the list of tasks bears the number of the tasks that are shown when it is chosen, and
-- the numbers of the four statuses add up to the number of all tasks.
pub chips-shown_tasks :
    (tasks : List Task)
    → All (λ chip. length (shown_tasks chip.0 tasks) ≡ chip.1) (chips tasks)
      × ((counts tasks).by_status opened
            + (counts tasks).by_status in_progress
            + (counts tasks).by_status resolved
            + (counts tasks).by_status closed
          ≡ length tasks)
unfolding chips
chips-shown_tasks tasks = (
  (
    shown_total tasks,
    All-chips (λ x. length (shown_tasks x.0 tasks) ≡ x.1)
        (λ s. (some s, (counts tasks).by_status s)) (λ s. not ((counts tasks).by_status s == 0))
        all_statuses (shown_number tasks),
  ),
  omega (
    arith,
    by_status_number tasks opened,
    by_status_number tasks in_progress,
    by_status_number tasks resolved,
    by_status_number tasks closed,
    numbers_sum tasks,
  ),
)
