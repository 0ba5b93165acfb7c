-- ===== src/Idempotency/Crash.antt =====
-- internal/idempotency/crash.go: the crash that a worker can be told to have.
use Prim.Native.Char.{Char}
use durable_agent_execution.Prelude.{
  String, Bool, true, false, ◌&&◌, Option, none, some, Result, ok, err, str_dec, ite, if◌then◌else◌,
  ◌≡◌, ap, refl, ◌∙◌, sym, arith,
}
use Prim.Native.String.{◌++◌ as append}
use durable_agent_execution.Prelude.Cut.{cut, is_free, append-cons_text, one-append, cut-append}
use durable_agent_execution.Errors.{Error, message}
use durable_agent_execution.Idempotency.Process.{Process, pure, exit}
use durable_agent_execution.Idempotency.Record.{
  CrashPoint, after_claim, after_execute, after_resolve,
}

-- noCrash, and exitCrash. A hook that fires ends the process, so that it fires once.
pub data CrashHook : Type 0 where
  no_crash : CrashHook
  exit_crash : String → CrashPoint → CrashHook

-- CrashPoint, by its string.
unfoldable pub point_name : CrashPoint → String
point_name after_claim = "after_claim"
point_name after_execute = "after_execute"
point_name after_resolve = "after_resolve"

unfoldable pub point_of_name : String → Option CrashPoint
point_of_name s = ite (str_dec s "after_claim") (some after_claim) (
    ite (str_dec s "after_execute") (some after_execute)
      (ite (str_dec s "after_resolve") (some after_resolve) none))

unfoldable pub same_point : CrashPoint → CrashPoint → Bool
same_point after_claim after_claim = true
same_point after_execute after_execute = true
same_point after_resolve after_resolve = true
same_point _ _ = false

-- At
unfoldable pub hook_at : {W : Type 0} → CrashHook → String → CrashPoint → Process W (Unit {0})
hook_at no_crash tool point = pure tt
hook_at (exit_crash t p) tool point =
    if ite (str_dec tool t) true false && same_point point p then exit else pure tt

unfoldable pub hook_for : String → String → Result Error CrashHook
hook_for String.[] point = err (message "parsing crash spec: want <tool>:<point>")
hook_for (String.◌∷◌ c tool) point = elim (point_of_name point) [
  | none ↦ err (message "parsing crash spec: unknown point")
  | some p ↦ ok (exit_crash (String.◌∷◌ c tool) p)
]

unfoldable pub hook_of : Option (String × String) → Result Error CrashHook
hook_of none = err (message "parsing crash spec: want <tool>:<point>")
hook_of (some (tool, point)) = hook_for tool point

-- ParseCrashSpec
unfoldable pub parse_crash_spec : String → Result Error CrashHook
parse_crash_spec String.[] = ok no_crash
parse_crash_spec (String.◌∷◌ c s) = hook_of (cut b':' (String.◌∷◌ c s))

point_of_name-point_name : (p : CrashPoint) → point_of_name (point_name p) ≡ some p
unfolding point_of_name point_name str_dec
point_of_name-point_name after_claim = refl
point_of_name-point_name after_execute = refl
point_of_name-point_name after_resolve = refl

-- The spec of a tool whose name holds no colon, and of any of the three points, is read as a hook for
-- that tool and that point.
pub parse_crash_spec-printed :
    (c : Char) (tool : String) (p : CrashPoint)
    → is_free b':' (String.◌∷◌ c tool) ≡ true
    → parse_crash_spec (append (String.◌∷◌ c tool) (append ":" (point_name p)))
      ≡ ok (exit_crash (String.◌∷◌ c tool) p)
unfolding parse_crash_spec hook_of hook_for
parse_crash_spec-printed c tool p free =
    ap parse_crash_spec (append-cons_text c tool (append ":" (point_name p)))
    ∙ ap (λ s. hook_of (cut b':' s)) (sym (append-cons_text c tool (append ":" (point_name p))))
    ∙ ap (λ t. hook_of (cut b':' (append (String.◌∷◌ c tool) t))) (one-append ":" (point_name p))
    ∙ ap hook_of (cut-append ":" (String.◌∷◌ c tool) (point_name p) free)
    ∙ ground (arith, point_of_name-point_name p)
