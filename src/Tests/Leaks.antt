-- ===== src/Tests/Leaks.antt =====
-- A C library whose `malloc` returns the address above all that are allocated, and runs of
-- src/core/analyze/crash_investigator_analyze_leak_only_new_delete_std_hash.cpp on it.
use native.Mathlib.Decide.{ℕ_discrete}
use old_crash_investigator.Base.{
  ℕ, suc, ◌<◌, ◌≡◌, refl, ◌∙◌, inl, Bool, true, false, Option, none, some, List, [], ◌∷◌, ltb, ◌==◌,
  if◌then◌else◌, update, update_self, Run, ok, stop, exited, undefined_behaviour, null, arith,
  eq→==, ne→==,
}
use old_crash_investigator.Container.NewHash.{new_hash}
use old_crash_investigator.Container.NewHash.Promises.{new_hash-IsHash}
use old_crash_investigator.Analyzer.Monad.{◌>>=◌}
use old_crash_investigator.Container.NewHash
use old_crash_investigator.LeakOnly.Operations
use old_crash_investigator.LeakOnly.StdHash
use old_crash_investigator.LeakOnly.{
  CLibrary, State, Call, Trace, c_malloc, c_free, with_int_handler, lock, unlock, the_table,
  find_mem, find_stack, mem_second, stack_second, change_mem, change_stack, load_trace, put_trace,
  free_backtrace_data, new_trace, clone_back_trace, init_backtrace_data_for_current_stack, convert,
  bt_hash, back_trc_eql,
}
use old_crash_investigator.LeakOnly.Consistent.{IsLibrary, IsPlenty, unowned, Consistent, is_like}
use old_crash_investigator.LeakOnly.Setup.{empty-Consistent, memories_like_empty}
use old_crash_investigator.LeakOnly.Traces.{in_state}
use old_crash_investigator.Backtrace.{
  Backtrace, init_backtrace_data, take, drop, is_the_same_stack, frames_equal, hash_of_the_stack,
  hash_loop, convert_backtrace_to_names,
}
use old_crash_investigator.LeakOnly.Alloc.{Allocates, captured, memories_like, alloc_mem_tracks}
use old_crash_investigator.LeakOnly.Free.{Releases, free_mem-Releases}
use old_crash_investigator.LeakOnly.RoundTrip.{Restores, more, alloc_mem-free_mem}
use old_crash_investigator.LeakOnly.Reach.{begun, allocated, Reaches-Within}
use old_crash_investigator.LeakOnly.Within.{Within}
use old_crash_investigator.LeakOnly.Operations.{alloc_mem, free_mem, init_raw}

has : List ℕ → ℕ → Bool
has [] a = false
has (b ∷ bs) a = if a == b then true else has bs a

without : ℕ → List ℕ → List ℕ
without a [] = []
without a (b ∷ bs) = let rest = without a bs in if a == b then rest else b ∷ rest

top : List ℕ → ℕ
top [] = 0
top (b ∷ bs) = let rest = top bs in if ltb rest b then b else rest

abbrev list_library : CLibrary
list_library = record {
  Heap = List ℕ;
  malloc_fn = λ n h. (suc (top h), suc (top h) ∷ h);
  free_fn = λ p h.
      if p == null then ok h else if has h p then ok (without p h) else stop undefined_behaviour;
}

abbrev live_in : List ℕ → ℕ → Bool
live_in h a = if a == null then false else has h a

above-has : (h : List ℕ) (a : ℕ) → top h < a → has h a ≡ false
unfolding has top
above-has [] a above = refl
above-has (b ∷ bs) a above = ground (arith, above-has bs a (ground arith))

without-has : (p : ℕ) (h : List ℕ) (a : ℕ) → has (without p h) a ≡ update (has h) p false a
unfolding has without update
without-has p [] a = ground arith
without-has p (b ∷ bs) a = elim (ℕ_discrete p b) [
  | yes here ↦ rw (eq→== p b here) (ground (arith, without-has p bs a))
  | no other ↦ rw (ne→== p b other) (ground (arith, without-has p bs a))
]

freed : (p : ℕ) (h : List ℕ) → live_in h p ≡ true → list_library.free_fn p h ≡ ok (without p h)
freed p h lives = ground arith

still_live : (p : ℕ) (h : List ℕ) (a : ℕ) → live_in (without p h) a ≡ update (live_in h) p false a
unfolding update
still_live p h a = ground (arith, without-has p h a)

now_live :
    (h : List ℕ) (a : ℕ) → live_in (suc (top h) ∷ h) a ≡ update (live_in h) (suc (top h)) true a
unfolding has update
now_live h a = ground arith

list_library-IsLibrary : IsLibrary list_library
list_library-IsLibrary = record {
  is_live = live_in;
  null-live = λ h. refl;
  malloc_fn-live = λ n h some_memory. (fresh h, now_live h);
  free_fn-live = λ p h lives. (without p h, freed p h lives, still_live p h);
  free_fn-null = λ h. refl;
}
  where
    fresh : (h : List ℕ) → live_in h (suc (top h)) ≡ false
    fresh h = ground (arith, above-has h (suc (top h)) (omega arith))

list_library-IsPlenty : IsPlenty list_library
list_library-IsPlenty n h = omega arith

abbrev frames : List ℕ
frames = 5 ∷ 6 ∷ 7 ∷ 8 ∷ []

abbrev now_3 : Call
now_3 = record { frames = frames; now = 3; symbols = λ _. none }

-- The limit is 1 and the analyser was set up at 2; two memories of an earlier time live.
abbrev base : State list_library new_hash
base = record {
  heap = 4 ∷ 9 ∷ [];
  traces = λ _. none;
  ignore_this_stack = false;
  init_or_exit_ongoing = false;
  is_ongoing = 0;
  operator_delete_called = false;
  max_number_of_alloc_in_the_stack = 1;
  init_time = 2;
  mem = some [];
  stack = some [];
  locked = some false;
  once_done = false;
  printed = [];
}

abbrev no_traces : ℕ → Option Trace
no_traces _ = none

abbrev start : State list_library new_hash
start = in_state list_library new_hash base (4 ∷ 9 ∷ []) no_traces [] [] 0 false

start-Consistent :
    Consistent list_library list_library-IsLibrary new_hash new_hash-IsHash
      (λ _. unowned)
      (4 ∷ 9 ∷ [])
      no_traces
      []
      []
start-Consistent =
    empty-Consistent list_library list_library-IsLibrary new_hash new_hash-IsHash (4 ∷ 9 ∷ [])
      no_traces

abbrev here : Backtrace
here =
    captured list_library list_library-IsLibrary new_hash new_hash-IsHash base start-Consistent
      now_3 8 1

none_here :
    (b : Backtrace)
    → memories_like list_library list_library-IsLibrary new_hash new_hash-IsHash b no_traces [] ≡ 0
none_here b =
    memories_like_empty list_library list_library-IsLibrary new_hash new_hash-IsHash b no_traces

alloc_mem_tracks_example :
    Allocates list_library list_library-IsLibrary new_hash new_hash-IsHash base start-Consistent
      now_3 8 1
alloc_mem_tracks_example =
    alloc_mem_tracks list_library list_library-IsLibrary new_hash new_hash-IsHash base
      start-Consistent now_3 8 1 list_library-IsPlenty (omega arith) (omega (arith, none_here here))
      (inl (none_here here))

-- After the first allocation.
first :
    Allocates list_library list_library-IsLibrary new_hash new_hash-IsHash base start-Consistent
      now_3 8 1
first =
    alloc_mem_tracks list_library list_library-IsLibrary new_hash new_hash-IsHash base
      start-Consistent now_3 8 1 list_library-IsPlenty (omega arith) (omega (arith, none_here here))
      (inl (none_here here))

abbrev after_first : State list_library new_hash
after_first =
    in_state list_library new_hash base first.heap' first.after_traces first.mem' first.stack' 0
      false

itself : is_like here (first.after_traces first.at) ≡ true
unfolding init_backtrace_data take drop is_the_same_stack frames_equal
itself = rw (first.at-is.0, first.at-is.1) refl

one_here :
    memories_like list_library list_library-IsLibrary new_hash new_hash-IsHash here
      first.after_traces first.mem'
    ≡ 1
one_here =
    more list_library list_library-IsLibrary new_hash new_hash-IsHash base start-Consistent now_3 8
      1 first here
    ∙ rw (itself, none_here here) refl

tracked_first : new_hash-IsHash.value_at first.mem' 10 ≡ some first.at
unfolding update top
tracked_first = first.mem'-is 10 ∙ update_self (new_hash-IsHash.value_at []) 10 (some first.at)

free_mem-Releases_example :
    Releases list_library list_library-IsLibrary new_hash new_hash-IsHash base first.consistent 10
      first.at
free_mem-Releases_example =
    free_mem-Releases list_library list_library-IsLibrary new_hash new_hash-IsHash base
      first.consistent 10 first.at first.trace tracked_first first.at-is.0
      (rw (first.at-is.1, one_here) (omega arith))

alloc_mem-free_mem_example :
    Restores list_library list_library-IsLibrary new_hash new_hash-IsHash base start-Consistent
      now_3 8 1
alloc_mem-free_mem_example =
    alloc_mem-free_mem list_library list_library-IsLibrary new_hash new_hash-IsHash base
      start-Consistent now_3 8 1 list_library-IsPlenty (omega arith) (omega (arith, none_here here))
      (inl (none_here here))

Reaches-Within_example :
    Within list_library list_library-IsLibrary new_hash new_hash-IsHash 1 2 after_first
unfolding top
Reaches-Within_example =
    Reaches-Within list_library list_library-IsLibrary new_hash new_hash-IsHash 1 2
      list_library-IsPlenty (omega arith) after_first
      (allocated start after_first now_3 8 1 10 (begun base (4 ∷ 9 ∷ []) no_traces refl refl)
        (omega arith) (omega arith) first.returns)

-- The analyser with `NewHash`: the second allocation with the same stack passes the limit of 1; it does
-- not where the first memory was freed.
twice :
    (StdHash.alloc_mem list_library now_3 8 1 >>= λ p. StdHash.alloc_mem list_library now_3 8 1)
      start
    ≡ stop (exited 1)
unfolding StdHash.alloc_mem StdHash.free_mem Operations.alloc_mem Operations.init Operations.track
    Operations.count_stack Operations.report_leak Operations.forget Operations.take_stack_out
    Operations.free_mem Operations.free_mem_analyze c_malloc c_free with_int_handler lock unlock
    the_table find_mem find_stack mem_second stack_second change_mem change_stack load_trace
    put_trace free_backtrace_data new_trace clone_back_trace init_backtrace_data_for_current_stack
    convert bt_hash back_trc_eql has without top NewHash.find_equal NewHash.find NewHash.lookup
    NewHash.second NewHash.change NewHash.set_second NewHash.add_entry_with_known_hash
    NewHash.without NewHash.remove update init_backtrace_data take drop is_the_same_stack
    frames_equal hash_of_the_stack hash_loop convert_backtrace_to_names
twice = refl

abbrev shown :
    Run (Unit {0} × State list_library new_hash) → Option (Option (List (ℕ × ℕ)) × List ℕ)
shown (ok (_, s)) = some (s.mem, s.heap)
shown (stop why) = none

again :
    shown (
      (StdHash.alloc_mem list_library now_3 8 1 >>= λ p. StdHash.free_mem list_library p >>= λ _.
      StdHash.alloc_mem list_library now_3 8 1 >>= λ q. StdHash.free_mem list_library q)
        start)
    ≡ some (some [], 4 ∷ 9 ∷ [])
unfolding StdHash.alloc_mem StdHash.free_mem Operations.alloc_mem Operations.init Operations.track
    Operations.count_stack Operations.report_leak Operations.forget Operations.take_stack_out
    Operations.free_mem Operations.free_mem_analyze c_malloc c_free with_int_handler lock unlock
    the_table find_mem find_stack mem_second stack_second change_mem change_stack load_trace
    put_trace free_backtrace_data new_trace clone_back_trace init_backtrace_data_for_current_stack
    convert bt_hash back_trc_eql has without top NewHash.find_equal NewHash.find NewHash.lookup
    NewHash.second NewHash.change NewHash.set_second NewHash.add_entry_with_known_hash
    NewHash.without NewHash.remove update init_backtrace_data take drop is_the_same_stack
    frames_equal hash_of_the_stack hash_loop convert_backtrace_to_names
again = refl
