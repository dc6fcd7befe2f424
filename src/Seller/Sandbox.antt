-- ===== src/Seller/Sandbox.antt =====
-- internal/sandbox/runner.go: one prompt is run by an executor under a time limit.
use knowledge_mesh.Base.{if◌then◌else◌, Bool, true, ◌&&◌, ◌||◌, Option, none, some}
use knowledge_mesh.Base.Int.{ℤ, pos, ltb_ℤ}
use knowledge_mesh.Base.Result.{Result, ok, err}
use knowledge_mesh.Base.Text.{Text, codes, is_empty}

pub data SandboxError : Type 0 where
  execution_timeout empty_prompt execution_failed : SandboxError

-- An error of an executor: whether it is context.DeadlineExceeded, and whether the time limit had passed
-- when it came back.
pub record ExecFailure : Type 0 where
  pub is_deadline : Bool
  pub out_of_time : Bool

-- Executor.Execute, with the time limit of its context in nanoseconds
abbrev pub Executor : Type 0
Executor = ℤ → Text → Result ExecFailure Text

pub record Runner : Type 0 where
  pub executor : Executor
  pub timeout : ℤ

unfoldable pub new_runner : Executor → ℤ → Runner
new_runner executor timeout = record {
  executor = executor;
  timeout = if ltb_ℤ (pos 0) timeout then timeout else pos 5000000000;
}

abbrev pub run_result : Result ExecFailure Text → Result SandboxError Text
run_result (ok response) = ok response
run_result (err e) =
    if e.is_deadline || e.out_of_time then err execution_timeout else err execution_failed

-- Runner.Run
unfoldable pub run_prompt : Runner → Text → Result SandboxError Text
run_prompt r prompt =
    if is_empty prompt then err empty_prompt else run_result (r.executor r.timeout prompt)

-- PassthroughExecutor
unfoldable pub passthrough : Executor
passthrough timeout prompt = ok prompt

-- MockExecutor, with its delay in nanoseconds: the shorter of the delay and the time limit ends first.
pub record MockExecutor : Type 0 where
  pub response : Text
  pub delay : ℤ
  pub error : Option ExecFailure

unfoldable pub mock_execute : MockExecutor → Executor
mock_execute m timeout prompt =
    if ltb_ℤ (pos 0) m.delay && ltb_ℤ timeout m.delay
    then err (record { is_deadline = true; out_of_time = true })
    else elim m.error [
      | some e ↦ err e
      | none ↦ if is_empty m.response then ok (codes "mock-response") else ok m.response
    ]
