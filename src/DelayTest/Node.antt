-- ===== src/DelayTest/Node.antt =====
-- tester.rs, `test_single_node` and `test_single_node_with_cancel`: the outcome of one test. The
-- request itself, its timer and the JSON reader are outside: a test is a function of what they gave.
use stelliberty_m.Base.{
  ℕ, ◌≡◌, refl, String, Bool, true, false, ℤ, pos, negsuc, to_i32, ◌<◌, arith, is_positive,
}

-- `json.get("delay").and_then(as_i64)` of a body that is JSON.
pub data Body : Type 0 where
  bad_json no_delay : Body
  delay : ℤ → Body

-- What `tokio::time::timeout` around the request gave.
pub data Response : Type 0 where
  timed_out : Response
  failed : String → Response
  answered : Body → Response

unfoldable pub test_single_node : Response → ℤ
test_single_node timed_out = negsuc 0
test_single_node (failed e) = negsuc 0
test_single_node (answered bad_json) = negsuc 0
test_single_node (answered no_delay) = negsuc 0
test_single_node (answered (delay d)) = to_i32 d

pub data NodeDelayTestOutcome : Type 0 where
  completed : ℤ → NodeDelayTestOutcome
  cancelled : NodeDelayTestOutcome

-- The biased `select!`: a cancellation that is there wins over a result that is there.
unfoldable pub test_single_node_with_cancel : Bool → Response → NodeDelayTestOutcome
unfolding test_single_node
test_single_node_with_cancel true response = cancelled
test_single_node_with_cancel false response = completed (test_single_node response)

-- `to_i32` keeps an integer that fits.
pub to_i32-pos : (n : ℕ) → n < 2147483648 → to_i32 (pos n) ≡ pos n
unfolding to_i32
to_i32-pos n h = ground arith

pub to_i32-negsuc : (n : ℕ) → n < 2147483648 → to_i32 (negsuc n) ≡ negsuc n
unfolding to_i32
to_i32-negsuc n h = ground arith

-- A test counts as a success only if the core answered with a delay.
pub test_single_node-positive :
    (r : Response)
    → is_positive (test_single_node r) ≡ true
    → (d : ℤ) × (r ≡ answered (delay d)) × (test_single_node r ≡ to_i32 d)
unfolding test_single_node
test_single_node-positive timed_out h = cc
test_single_node-positive (failed e) h = cc
test_single_node-positive (answered bad_json) h = cc
test_single_node-positive (answered no_delay) h = cc
test_single_node-positive (answered (delay d)) h = (d, refl, refl)
