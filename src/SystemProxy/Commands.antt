-- ===== src/SystemProxy/Commands.antt =====
-- manager.rs: running the commands of the system. What a command makes of the system is an argument.
pub mod Works
use Prim.Native.String
use stelliberty_m.Base.{
  ℕ, String, Bool, true, false, List, [], ◌∷◌, Option, none, some, Result, ok, err, is_empty, trim,
  if◌then◌else◌,
}

-- A command that ended; its code as the message prints it.
pub record Output : Type 0 where
  pub success : Bool
  pub code : String
  pub stdout : String
  pub stderr : String

-- A step that may fail and changes the system.
abbrev pub Act : Type 0 → Type 0 → Type 0
Act W A = W → Result A × W

abbrev pub next : {W A B : Type 0} → (A → Act W B) → Result A × W → Result B × W
next rest (err e, w) = (err e, w)
next rest (ok a, w) = rest a w

infixl 5 ◌>>=◌
abbrev pub ◌>>=◌ : {W A B : Type 0} → Act W A → (A → Act W B) → Act W B
(first >>= rest) w = next rest (first w)

abbrev pub pure : {W A : Type 0} → A → Act W A
pure a w = (ok a, w)

abbrev pub Run : Type 0 → Type 0
Run W = String → List String → Act W Output

checked : String → Output → Result Output
checked command o =
    if o.success
    then ok o
    else (if is_empty (trim o.stderr)
        then err (String.◌++◌ command (String.◌++◌ " 执行失败，退出码：" o.code))
        else err (String.◌++◌ command (String.◌++◌ " 执行失败：" (trim o.stderr))))

executed : {W : Type 0} → String → Result Output × W → Result Output × W
executed command (err e, w) =
    (err (String.◌++◌ "执行 " (String.◌++◌ command (String.◌++◌ " 失败：" e))), w)
executed command (ok o, w) = (checked command o, w)

module _ {W : Type 0} (run : Run W) where
  unfoldable pub execute_command : String → List String → Act W Output
  unfolding trim checked executed
  execute_command command args w = executed command (run command args w)

  unfoldable pub run_command : String → List String → Act W (Unit {0})
  unfolding execute_command
  run_command command args = do _output ← execute_command command args; pure tt

  unfoldable pub read_command_output : String → List String → Act W String
  unfolding execute_command
  read_command_output command args = do
    output ← execute_command command args
    pure (trim output.stdout)

  -- Calls of `run_command` one behind the other, up to the first that fails.
  unfoldable pub run_commands : String → List (List String) → Act W (Unit {0})
  unfolding run_command
  run_commands command [] = pure tt
  run_commands command (args ∷ more) = do
    _done ← run_command command args
    run_commands command more
