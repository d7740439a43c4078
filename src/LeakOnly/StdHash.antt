-- ===== src/LeakOnly/StdHash.antt =====
-- src/core/analyze/crash_investigator_analyze_leak_only_new_delete_std_hash.cpp: the same analyser, written again
-- with `NewHash` as its tables. Its functions are those of the parent with that table.
use old_crash_investigator.Base.{ℕ, List}
use old_crash_investigator.Backtrace.{StackItem}
use old_crash_investigator.Container.NewHash.{new_hash}
use old_crash_investigator.LeakOnly
use old_crash_investigator.LeakOnly.{CLibrary, Call}
use old_crash_investigator.LeakOnly.Operations

module _ (lib : CLibrary) where
  abbrev pub State : Type 0
  State = LeakOnly.State lib new_hash

  abbrev pub Act : Type 0 → Type 0
  Act A = LeakOnly.Act lib new_hash A

  unfoldable pub with_int_handler : {A : Type 0} → Act A → Act A
  with_int_handler body = LeakOnly.with_int_handler lib new_hash body

  unfoldable pub init_raw : (now : ℕ) → Act (Unit {0})
  init_raw now = Operations.init_raw lib new_hash now

  unfoldable pub init : (now : ℕ) → Act (Unit {0})
  init now = Operations.init lib new_hash now

  unfoldable pub destroy : Act (Unit {0})
  destroy = Operations.destroy lib new_hash

  unfoldable pub take_stack_out : (iter_mem : ℕ) → Act (Unit {0})
  take_stack_out iter_mem = Operations.take_stack_out lib new_hash iter_mem

  unfoldable pub alloc_mem : Call → (size go_back : ℕ) → Act ℕ
  alloc_mem call size go_back = Operations.alloc_mem lib new_hash call size go_back

  unfoldable pub free_mem_analyze : (ptr : ℕ) → Act (Unit {0})
  free_mem_analyze ptr = Operations.free_mem_analyze lib new_hash ptr

  unfoldable pub free_mem : (ptr : ℕ) → Act (Unit {0})
  free_mem ptr = Operations.free_mem lib new_hash ptr

  unfoldable pub clone_back_trace : ℕ → Act ℕ
  clone_back_trace p = LeakOnly.clone_back_trace lib new_hash p

  unfoldable pub free_backtrace_data : ℕ → Act (Unit {0})
  free_backtrace_data p = LeakOnly.free_backtrace_data lib new_hash p

  unfoldable pub init_backtrace_data_for_current_stack : ℕ → List ℕ → Act ℕ
  init_backtrace_data_for_current_stack go_back frames =
      LeakOnly.init_backtrace_data_for_current_stack lib new_hash go_back frames

  unfoldable pub convert : Call → ℕ → Act (List StackItem)
  convert call p = LeakOnly.convert lib new_hash call p

  unfoldable pub operator_new : Call → (count : ℕ) → Act ℕ
  operator_new call count = Operations.operator_new lib new_hash call count

  unfoldable pub operator_new_aligned : Call → (count al : ℕ) → Act ℕ
  operator_new_aligned call count al = Operations.operator_new_aligned lib new_hash call count al

  unfoldable pub operator_delete : (ptr : ℕ) → Act (Unit {0})
  operator_delete ptr = Operations.operator_delete lib new_hash ptr
