-- ===== src/Control/Install.antt =====
-- service_manager.rs: installing and removing the service, and its version. The commands that are run, the
-- shell of Windows and the file system are arguments.
pub mod Outcome
use Prim.Native.String
use stelliberty_m.Base.{
  ℕ, zero, suc, String, Bool, true, false, ◌||◌, ◌&&◌, not, List, [], ◌∷◌, ◌++◌, Option, none, some,
  Result, ok, err, ◌>>=◌, ok_or, eqb, leb, ℤ, pos, negsuc, trim, strip_text, unwrap_or, and_then,
  if◌then◌else◌,
}
use stelliberty_m.Service.Protocol.{IpcCommand, IpcResponse}
use stelliberty_m.Service.Wire.{IpcResult}
use stelliberty_m.Control.Process.{ClashProcessResult, done, World, cleanup_process_manager}
use stelliberty_m.Control.Manager.{
  Host, windows, linux, mac_os, ServiceStatus, running, stopped, not_installed, unknown, Probes,
  Texts, get_status, stop_clash,
}

pub data Operation : Type 0 where
  install uninstall : Operation

abbrev pub name_of : Operation → String
name_of install = "安装"
name_of uninstall = "卸载"

-- A command that ended: whether with success, its code, and the texts of its two streams.
pub record Output : Type 0 where
  pub success : Bool
  pub code : Option ℤ
  pub stdout : String
  pub stderr : String

-- The service's own command; on Linux the message has both streams.
ended_directly : Operation → String → Output → Result (Unit {0})
ended_directly op text o =
    if o.success then ok tt else err (String.◌++◌ (name_of op) (String.◌++◌ "服务失败：" text))

run_directly : Operation → (Output → String) → Result Output → Result (Unit {0})
run_directly op text (err e) = err (String.◌++◌ "执行" (String.◌++◌ (name_of op) "命令失败"))
run_directly op text (ok o) = ended_directly op (text o) o

abbrev both_streams : Output → String
both_streams o = String.◌++◌ o.stderr o.stdout

abbrev pub wants_sudo : Operation → String
wants_sudo op = String.◌++◌ (name_of op) "失败，请以 sudo 运行应用后重试"

-- 126 is an authorisation that was cancelled, 127 a program that was not found.
is_denied : ℤ → Bool
is_denied (pos n) = eqb n 126 || eqb n 127
is_denied (negsuc n) = false

ended_pkexec : Operation → Output → Result (Unit {0})
ended_pkexec op o =
    if o.success
    then ok tt
    else (if is_denied (unwrap_or o.code (negsuc 0))
        then err (wants_sudo op)
        else err (String.◌++◌ (name_of op) (String.◌++◌ "失败：" (trim o.stderr))))

run_pkexec : Operation → Result Output → Result (Unit {0})
run_pkexec op (err e) = err (wants_sudo op)
run_pkexec op (ok o) = ended_pkexec op o

-- What `ShellExecuteW` gave.
error_detail : ℤ → String
error_detail (negsuc n) = "未知错误"
error_detail (pos n) =
    if eqb n 0
    then "系统内存或资源不足"
    else if eqb n 2
    then "找不到指定的服务程序文件"
    else if eqb n 3
    then "找不到指定的路径"
    else if eqb n 5
    then "拒绝访问（权限不足）"
    else if eqb n 8
    then "内存不足"
    else if eqb n 11
    then "服务程序文件损坏或无效"
    else if eqb n 26
    then "无法共享"
    else if eqb n 27
    then "文件名关联不完整或无效"
    else if eqb n 28
    then "操作超时"
    else if eqb n 29
    then "DDE 事务失败"
    else if eqb n 30
    then "DDE 事务正在处理中"
    else if eqb n 31
    then "没有关联的应用程序"
    else if eqb n 32
    then "未找到或未注册 DLL"
    else if eqb n 1223
    then "用户取消了 UAC 权限提升对话框"
    else "未知错误"

abbrev verb : Operation → String
verb install = "install"
verb uninstall = "uninstall"

elevated_error : (ℤ → String) → Operation → ℤ → String
elevated_error show_int op v = String.◌++◌ "服务" (
    String.◌++◌ (verb op) (
      String.◌++◌ "失败（错误代码：" (
        String.◌++◌ (show_int v) (
          String.◌++◌ "）：" (
            String.◌++◌ (error_detail v)
              "。\n\n请确保：\n1. 已在 UAC 对话框中点击\"是\"\n2. 服务程序文件完整且未被杀毒软件隔离\n3. 当前用户具有管理员权限")))))

-- The result is over 32 where the shell took the command.
shell_taken : ℤ → Bool
shell_taken (negsuc n) = false
shell_taken (pos n) = not (leb n 32)

-- The wait for the service to appear or to go, which is only logged: `n` looks are left.
is_wanted : Operation → Bool → Bool
is_wanted install found = found
is_wanted uninstall found = not found

unfoldable pub is_operation_completed : Operation → (ℕ → Bool) → ℕ → ℕ → Bool
unfolding is_wanted
is_operation_completed op found zero i = false
is_operation_completed op found (suc n) i =
    let later = is_operation_completed op found n (suc i) in
    if is_wanted op (found i) then true else later

pub record Shell : Type 0 where
  pub path_text : Option String
  pub binary_exists : Bool
  pub execute : ℤ
  pub found : ℕ → Bool

-- Whether the change was seen within the 20 looks, where the command was taken.
unfoldable pub run_elevated_command : (ℤ → String) → Shell → Operation → Result Bool
unfolding is_operation_completed error_detail elevated_error shell_taken
run_elevated_command show_int sh op = do
  binary_path ← ok_or sh.path_text "服务程序路径包含无效字符"
  if sh.binary_exists
      then (if shell_taken sh.execute
          then ok (is_operation_completed op sh.found 20 0)
          else err (elevated_error show_int op sh.execute))
      else err (String.◌++◌ "服务程序文件不存在：" (String.◌++◌ binary_path "。可能已被删除或移动"))

-- What the platform does with a command for the service.
pub record Platform : Type 0 where
  pub host : Host
  pub has_root : Bool
  pub direct : Result Output
  pub pkexec : Result Output
  pub shell : Shell

without_look : Result Bool → Result (Unit {0})
without_look (ok seen) = ok tt
without_look (err e) = err e

unfoldable pub run_operation : (ℤ → String) → Platform → Operation → Result (Unit {0})
unfolding ended_directly run_directly is_denied ended_pkexec run_pkexec run_elevated_command
    without_look
run_operation show_int p op = on p.host
  where
    on : Host → Result (Unit {0})
    on windows = without_look (run_elevated_command show_int p.shell op)
    on linux = if p.has_root then run_directly op both_streams p.direct else run_pkexec op p.pkexec
    on mac_os = run_directly op (λ o. o.stderr) p.direct

module _ {S : Type 0} (texts : Texts) (send : IpcCommand → S → IpcResult IpcResponse × S)
    (show_int : ℤ → String) (p : Platform) where
  is_running : ServiceStatus → Bool
  is_running (running pid uptime) = true
  is_running stopped = false
  is_running not_installed = false
  is_running unknown = false

  -- On Windows a core that ran is stopped, and an error of that is passed over.
  stopped_core : Host → Bool → S → S
  stopped_core windows true s = (stop_clash texts send s).1
  stopped_core windows false s = s
  stopped_core linux was_running s = s
  stopped_core mac_os was_running s = s

  installed_then : Result (Unit {0}) → ServiceStatus × S → Result (Unit {0}) × S
  installed_then (err e) (st, s) = (err e, s)
  installed_then (ok _) (st, s) = (ok tt, stopped_core p.host (is_running st) s)

  unfoldable pub install_service : Probes → S → Result (Unit {0}) × S
  unfolding is_running stopped_core installed_then run_operation
  install_service probes s =
      installed_then (run_operation show_int p install) (get_status send p.host probes s)

abbrev pub removal_error : String → String
removal_error path =
    String.◌++◌ "无法删除服务程序："
      (String.◌++◌ path "。可能原因：\n1. 文件被服务进程占用（请等待服务完全退出）\n2. 文件被杀毒软件锁定\n3. 权限不足")

-- The private copy of the service, which may be in use: `n` retries are left, `removes i` says whether the
-- attempt `i` works.
unfoldable pub remove_from : (ℕ → Bool) → String → ℕ → ℕ → Result (Unit {0})
remove_from removes path zero i = if removes i then ok tt else err (removal_error path)
remove_from removes path (suc n) i =
    let again = remove_from removes path n (suc i) in if removes i then ok tt else again

unfoldable pub remove_service_binary_from_private : Bool → (ℕ → Bool) → String → Result (Unit {0})
unfolding remove_from
remove_service_binary_from_private exists removes path =
    if exists then remove_from removes path 15 0 else ok tt

-- The signals that the core stopped, and the result.
uninstalled : Result (Unit {0}) → Result (Unit {0}) → List ClashProcessResult × Result (Unit {0})
uninstalled (err e) removal = ([], err e)
uninstalled (ok _) removal = (done none ∷ [], removal)

module _ (show_int : ℤ → String) (p : Platform) (exists : Bool) (removes : ℕ → Bool)
    (path : String) where
  unfoldable pub uninstall_service : List ClashProcessResult × Result (Unit {0})
  unfolding run_operation remove_service_binary_from_private uninstalled
  uninstall_service =
      uninstalled (run_operation show_int p uninstall)
        (remove_service_binary_from_private exists removes path)

pub record ServiceOperationResult : Type 0 where
  pub is_successful : Bool
  pub error_message : Option String

abbrev pub succeeded : ServiceOperationResult
succeeded = record { is_successful = true; error_message = none }

abbrev pub failed : String → ServiceOperationResult
failed e = record { is_successful = false; error_message = some e }

operation_result : {S : Type 0} → Result (Unit {0}) × S → ServiceOperationResult × S
operation_result (ok _, s) = (succeeded, s)
operation_result (err e, s) = (failed e, s)

-- `created` is what `ServiceManager::new` gives.
unfoldable pub handle_install :
    {S : Type 0}
    → Texts
    → (IpcCommand → S → IpcResult IpcResponse × S)
    → (ℤ → String)
    → Platform
    → Result (Unit {0})
    → Probes
    → S
    → ServiceOperationResult × S
unfolding install_service operation_result
handle_install texts send show_int p (err e) probes s = (failed (String.◌++◌ "创建服务管理器失败：" e), s)
handle_install texts send show_int p (ok _) probes s =
    operation_result (install_service texts send show_int p probes s)

-- What the removal tells the user interface, in its order.
pub record Told : Type 0 where
  pub process : List ClashProcessResult
  pub operation : ServiceOperationResult

removal_told : List ClashProcessResult × Result (Unit {0}) → World → Told × World
removal_told (sent, ok _) w =
    (record { process = sent; operation = succeeded }, cleanup_process_manager w)
removal_told (sent, err e) w = (record { process = sent; operation = failed e }, w)

unfoldable pub handle_uninstall :
    (ℤ → String) → Platform → Bool → (ℕ → Bool) → String → Result (Unit {0}) → World → Told × World
unfolding uninstall_service removal_told
handle_uninstall show_int p exists removes path (err e) w =
    (record { process = []; operation = failed (String.◌++◌ "创建服务管理器失败：" e) }, w)
handle_uninstall show_int p exists removes path (ok _) w =
    removal_told (uninstall_service show_int p exists removes path) w

-- The version that a binary of the service prints, where there is one that runs.
version_of : Output → Option String
version_of o = if o.success then strip_text "Stelliberty Service v" (trim o.stdout) else none

ran : Result Output → Option String
ran (err e) = none
ran (ok o) = version_of o

unfoldable pub get_installed_service_version : Bool → Result Output → Option String
unfolding version_of ran
get_installed_service_version exists output = if exists then ran output else none

unfoldable pub get_bundled_service_version : Bool → Result Output → Option String
unfolding version_of ran
get_bundled_service_version exists output = if exists then ran output else none

pub record ServiceVersionResponse : Type 0 where
  pub installed_version : Option String
  pub bundled_version : String

unfoldable pub handle_get_version :
    Bool → Result Output → Bool → Result Output → ServiceVersionResponse
unfolding get_installed_service_version get_bundled_service_version
handle_get_version exists output bundled_exists bundled_output = record {
  installed_version = get_installed_service_version exists output;
  bundled_version = unwrap_or (get_bundled_service_version bundled_exists bundled_output) "unknown";
}
