-- ===== src/Network/Retry.antt =====
-- handlers.rs: which errors say that the core is not there yet, and which are tried again.
pub mod Texts
use stelliberty_m.Base.{ℕ, String, Bool, not, ◌&&◌, ◌||◌, contains, ltb}

unfoldable pub is_ipc_not_ready_error : String → Bool
unfolding contains
is_ipc_not_ready_error error_msg =
    contains error_msg "系统找不到指定的文件"
    || (contains error_msg "os error 2"
        || (contains error_msg "拒绝连接"
            || (contains error_msg "os error 111"
                || (contains error_msg "os error 61" || contains error_msg "Connection refused"))))

unfoldable pub can_retry_on_error : String → ℕ → ℕ → Bool
unfolding is_ipc_not_ready_error contains
can_retry_on_error error_msg attempt max_retries =
    ltb attempt max_retries
    && (not (is_ipc_not_ready_error error_msg)
        && (contains error_msg "os error"
            || (contains error_msg "系统找不到指定的文件"
                || (contains error_msg "Connection refused" || contains error_msg "Broken pipe"))))
