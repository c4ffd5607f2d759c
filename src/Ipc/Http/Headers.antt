-- ===== src/Ipc/Http/Headers.antt =====
-- client.rs: the loop over the header lines.
use stelliberty_m.Base.{
  ℕ, zero, suc, ◌<◌, ◌≡◌, ◌≢◌, refl, String, List, [], ◌∷◌, Result, ok, err, ◌==◌, length, arith,
  Bool-cases, inl, inr,
}
use stelliberty_m.Ipc.Stream.{Bytes, Stream, read_line}
use stelliberty_m.Ipc.Stream.Consume.{read_line-shorter}
use stelliberty_m.Ipc.Http.{
  Run, returns, out_of_fuel, then_run, failing, add_line, next_header, read_headers,
}

abbrev Ends : Run (List String) → Type 0
Ends r = r ≢ out_of_fuel

add_line-Ends : (line : String) (r : Run (List String)) → Ends r → Ends (add_line line r)
unfolding add_line
add_line-Ends line out_of_fuel h = h
add_line-Ends line (returns (ok ls) s) h = λ e. cc
add_line-Ends line (returns (err e) s) h = λ g. cc

-- More rounds than there are bytes are enough to read the headers, or to fail.
pub read_headers_end :
    (fuel : ℕ) (s : Stream) → length s.bytes < fuel → read_headers fuel s ≢ out_of_fuel
unfolding read_headers next_header
read_headers_end zero s h = elim h [ ]
read_headers_end (suc fuel) s h =
    by_line (λ g. read_headers_end fuel (read_line s).1 g) (read_line s).0 refl
  where
    by_line :
        (length (read_line s).1.bytes < fuel → Ends (read_headers fuel (read_line s).1))
        → (r : Result (Bytes × String)) → (read_line s).0 ≡ r
        → Ends (
            then_run
              (failing "读取响应行失败：" (r, (read_line s).1))
              (next_header (λ t. read_headers fuel t)))
    by_line again (err e) same = λ g. cc
    by_line again (ok ([], line)) same = λ g. cc
    by_line again (ok (b ∷ bs, line)) same =
        let shorter = read_line-shorter s same in
        elim (Bool-cases (line == "\r\n")) [
          | inl e ↦ rw e (λ g. cc)
          | inr e ↦ rw e (add_line-Ends line _ (again (omega arith)))
        ]
