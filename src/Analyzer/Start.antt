-- ===== src/Analyzer/Start.antt =====
-- The begin of src/core/basic/crash_investigator_alloc_dealloc_analyze.cpp: its static variables, and
-- the constructor that installs the signal handler.
use old_crash_investigator.Base.{
  refl, Bool, true, false, none, some, [], ◌∷◌, ◌++◌, if◌then◌else◌, ok, Returns, null,
}
use old_crash_investigator.Analyzer.Monad.{pure, ◌>>=◌, ◌>>◌, get}
use old_crash_investigator.Analyzer.Operators.Delete.{IsOutside}
use old_crash_investigator.Analyzer.Report.Exits.{UsesDefault}
use old_crash_investigator.Analyzer.State.{State, Act, Env}
use old_crash_investigator.Analyzer.Track.{set_allocing}
use old_crash_investigator.Failure.{
  unable_to_change_signal_handler, default_failure_clbk, default_info_report_static,
  default_error_report_static, or_default,
}
use old_crash_investigator.HashItems.{empty}
use old_crash_investigator.HashItems.Contents.{empty-Contains}
use old_crash_investigator.RawAlloc.{Libc, Raw}

module _ (libc : Libc) where
  -- The initial values of the static variables.
  unfoldable pub initial : Env → Raw libc → State libc
  initial env raw = record {
    raw = raw;
    traces = λ _. none;
    memory_items = empty;
    stack_items = empty;
    is_allocing_or_deallocing = false;
    max_number_of_alloc_from_the_same_stack = 10;
    handler_memory = none;
    clbk_data = record {
      user_data = null;
      clbk_fnc = some (default_failure_clbk env.ndebug);
      info_clbk = some default_info_report_static;
      error_clbk = some default_error_report_static;
    };
    locked = false;
    printed = [];
  }

  module _ (env : Env) where
    -- `CrashInvestAnalizerInit`; `changed` says whether `sigaction` has set the handler. The greeting
    -- of the verbose build is not kept.
    unfoldable pub init_analyzer : (changed : Bool) → Act libc (Unit {0})
    init_analyzer changed = do
      s ← get
      set_allocing libc env true
      (if changed then pure tt else λ t.
          ok (tt, record t { printed = t.printed ++ unable_to_change_signal_handler ∷ [] }))
      set_allocing libc env s.is_allocing_or_deallocing

    -- After the constructor the thread is outside of the analyser, nothing is tracked, and the default
    -- callback is in place.
    pub init_analyzer-IsOutside :
        (changed : Bool) (raw : Raw libc)
        → Returns
            (init_analyzer changed (initial env raw))
            λ r. IsOutside libc r.1 [] × UsesDefault libc env r.1
    unfolding init_analyzer initial set_allocing or_default
    init_analyzer-IsOutside true raw =
        (_, refl, (record { flag = refl; unlocked = refl; contains = empty-Contains }, refl))
    init_analyzer-IsOutside false raw =
        (_, refl, (record { flag = refl; unlocked = refl; contains = empty-Contains }, refl))
