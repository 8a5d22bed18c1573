-- ===== src/FileState/Files.antt =====
-- `Files` of internal/mod/rule/file_state_handler/file_state_handler.go and its filters, and how it
-- orders what it gives. sort.Slice is a parameter that rearranges a list.
use co_scout.Prelude.{
  ◌≡◌, ◌↔◌, refl, ◌∙◌, Bool, true, false, not, ◌&&◌, ◌||◌, List, [], ◌∷◌, Option, none, some,
  if◌then◌else◌, Text, text_eq, text_eq_iff, ltb, ◌==◌, lookup, arith, Bool-cases, inl, inr,
}
use co_scout.Prelude.Int.{ℤ, ltb_ℤ, ◌≤ℤ◌, ◌<ℤ◌}
use co_scout.FileState.{
  ProcessState, unprocessed, seen_once, ready_to_process, processed, FileState, States,
  FileStateHandler,
}
use co_scout.FileState.Stages.{IsKeyed}

-- The order of Go strings.
unfoldable pub text_ltb : Text → Text → Bool
text_ltb xs [] = false
text_ltb [] (y ∷ ys) = true
text_ltb (x ∷ xs) (y ∷ ys) = ltb x y || (x == y && text_ltb xs ys)

-- The function that sort.Slice is given.
unfoldable pub before : FileState → FileState → Bool
unfolding text_ltb
before a b =
    ltb_ℤ a.start_time b.start_time || ltb_ℤ a.end_time b.end_time || text_ltb a.pathname b.pathname

abbrev pub FileFilter : Type 0
FileFilter = Text → FileState → Bool

is_ready_to_process : ProcessState → Bool
is_ready_to_process ready_to_process = true
is_ready_to_process unprocessed = false
is_ready_to_process seen_once = false
is_ready_to_process processed = false

unfoldable pub filter_ready_to_process : FileFilter
unfolding is_ready_to_process
filter_ready_to_process p s = s.is_listening && is_ready_to_process s.process_state

unfoldable pub filter_time : ℤ → ℤ → FileFilter
filter_time start_time end_time p s =
    not (ltb_ℤ end_time s.start_time) && not (ltb_ℤ s.end_time start_time)

unfoldable pub filter_is_listening : FileFilter
filter_is_listening p s = s.is_listening

unfoldable pub filter_is_collecting : FileFilter
filter_is_collecting p s = s.is_collecting

unfoldable pub matches_all : List FileFilter → Text → FileState → Bool
matches_all [] p s = true
matches_all (filter ∷ filters) p s = filter p s && matches_all filters p s

unfoldable pub matching : List FileFilter → States → List FileState
unfolding matches_all
matching filters [] = []
matching filters ((p, s) ∷ m) =
    let rest = matching filters m in
    if not s.unsupported && matches_all filters p s then record s { pathname = p } ∷ rest else rest

unfoldable pub files :
    ((FileState → FileState → Bool) → List FileState → List FileState)
    → List FileFilter
    → FileStateHandler
    → List FileState
unfolding matching before
files sort_slice filters f = sort_slice before (matching filters f.state)

-- The first of the states that has the path.
unfoldable pub find_pathname : Text → List FileState → Option FileState
find_pathname p [] = none
find_pathname p (s ∷ ss) = if text_eq s.pathname p then some s else find_pathname p ss

-- What is given for a path, from the state that is held for it.
unfoldable pub matched_state : List FileFilter → Text → Option FileState → Option FileState
unfolding matches_all
matched_state filters p none = none
matched_state filters p (some s) =
    if not s.unsupported && matches_all filters p s then some (record s { pathname = p }) else none

module _ (abs : Text → Option Text) (filters : List FileFilter) where
  -- A path is among the files that are given just if its state is supported and passes every
  -- filter, and then with that state and its own path.
  pub find_pathname-matching :
      (m : States) (p : Text)
      → IsKeyed abs m
      → find_pathname p (matching filters m) ≡ matched_state filters p (lookup p m)
  unfolding find_pathname matching matched_state lookup
  find_pathname-matching [] p h = refl
  find_pathname-matching ((k, s) ∷ m) p h =
      let ih = find_pathname-matching m p h.2 in
      elim (Bool-cases (text_eq k p)) [
        | inr e ↦ rw e (ground (arith, ih, e))
        | inl e ↦
            let same = (text_eq_iff k p).0 e in
            let none_left : lookup p m ≡ none = rw same at h.1 in
            let kept : find_pathname p (matching filters m) ≡ none = ih ∙ rw none_left refl in
            rw e (ground (arith, kept, same, e))
      ]

-- An instant that is in both spans.
abbrev pub Shared : ℤ → ℤ → FileState → Type 0
Shared start_time end_time s =
    (t : ℤ) × (start_time ≤ℤ t) × (t ≤ℤ end_time) × (s.start_time ≤ℤ t) × (t ≤ℤ s.end_time)

filter_time→Shared :
    (start_time end_time : ℤ) (p : Text) (s : FileState)
    → start_time ≤ℤ end_time
    → s.start_time ≤ℤ s.end_time
    → filter_time start_time end_time p s ≡ true
    → Shared start_time end_time s
unfolding filter_time
filter_time→Shared a b p s h k f = elim (Bool-cases (ltb_ℤ a s.start_time)) [
  | inl e ↦ (s.start_time, ground arith, ground arith, ground arith, ground arith)
  | inr e ↦ (a, ground arith, ground arith, ground arith, ground arith)
]

Shared→filter_time :
    (start_time end_time : ℤ) (p : Text) (s : FileState)
    → Shared start_time end_time s
    → filter_time start_time end_time p s ≡ true
unfolding filter_time
Shared→filter_time a b p s (t, h0, h1, h2, h3) = ground arith

-- The filter by time passes a file just if some instant is in both spans, where neither is empty.
pub filter_time-Shared :
    (start_time end_time : ℤ) (p : Text) (s : FileState)
    → start_time ≤ℤ end_time
    → s.start_time ≤ℤ s.end_time
    → (filter_time start_time end_time p s ≡ true) ↔ Shared start_time end_time s
filter_time-Shared a b p s h k = (filter_time→Shared a b p s h k, Shared→filter_time a b p s)

-- The function that sort.Slice is given is no order: of a file whose span lies around another's,
-- each is put before the other.
pub before-nested :
    (a b : FileState)
    → a.start_time <ℤ b.start_time
    → b.end_time <ℤ a.end_time
    → (before a b ≡ true) × (before b a ≡ true)
unfolding before
before-nested a b h k = ground arith
