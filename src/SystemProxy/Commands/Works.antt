-- ===== src/SystemProxy/Commands/Works.antt =====
-- manager.rs: commands that end with success.
use stelliberty_m.Base.{◌≡◌, refl, ap, String, true, List, ok, trim}
use stelliberty_m.SystemProxy.Commands.{
  Output, next, Run, checked, executed, execute_command, run_command, read_command_output,
}

module _ {W : Type 0} (run : Run W) (command : String) (args : List String) (w w' : W) (o : Output)
    (ran : run command args w ≡ (ok o, w')) (succeeds : o.success ≡ true) where
  execute_command-ok : execute_command run command args w ≡ (ok o, w')
  unfolding execute_command executed checked
  execute_command-ok = rw ran (rw succeeds refl)

  pub run_command-ok : run_command run command args w ≡ (ok tt, w')
  unfolding run_command
  run_command-ok = ap (next (λ output v. (ok tt, v))) execute_command-ok

  pub read_command_output-ok : read_command_output run command args w ≡ (ok (trim o.stdout), w')
  unfolding read_command_output
  read_command_output-ok = ap (next (λ output v. (ok (trim output.stdout), v))) execute_command-ok
