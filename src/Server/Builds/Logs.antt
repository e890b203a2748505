-- ===== src/Server/Builds/Logs.antt =====
-- What is kept of a log with a limit.
use roodox_sever_win.Base.{
  ℕ, suc, ◌-◌, ◌≤◌, ◌<◌, ◌≡◌, refl, inl, inr, ◌⊎◌, false, Bool-cases, ◌++◌, Bytes, drop, length,
  length-append, length-drop, pos, leb, arith,
}
use roodox_sever_win.Server.Builds.{log_truncation_marker, append_log_with_limit}

-- All of the log, or its end, behind the marker where that leaves room for more.
pub record KeepsEnd (n : ℕ) (buf out : Bytes) : Type 0 where
  pub fits : length out ≤ n
  pub whole : length buf ≤ n → out ≡ buf
  pub full : n < length buf → length out ≡ n
  pub end_kept :
      n < length buf
      → (out ≡ drop (length buf - n) buf)
        ⊎ (out
            ≡ log_truncation_marker ++ drop (length buf - (n - length log_truncation_marker)) buf)

cut-KeepsEnd :
    (n : ℕ) (buf out : Bytes)
    → n < length buf
    → length out ≡ n
    → (out ≡ drop (length buf - n) buf)
      ⊎ (out ≡ log_truncation_marker ++ drop (length buf - (n - length log_truncation_marker)) buf)
    → KeepsEnd n buf out
cut-KeepsEnd n buf out h e c = record {
  fits = omega (arith, e);
  whole = λ k. absurd (omega arith);
  full = λ k. e;
  end_kept = λ k. c;
}

-- A build log with a positive limit never grows beyond it: the old log with the new entry is
-- kept whole when it fits; otherwise exactly as many bytes as the limit are kept, its last ones,
-- alone or behind the truncation marker.
pub append_log_with_limit_lem :
    (existing entry : Bytes) (n : ℕ)
    → KeepsEnd (suc n) (existing ++ entry) (append_log_with_limit existing entry (pos (suc n)))
unfolding append_log_with_limit
append_log_with_limit_lem existing entry n =
    let p : leb (suc n) 0 ≡ false = ground arith in
    elim (Bool-cases (leb (length (existing ++ entry)) (suc n))) [
      | inl e ↦
          rw (p, e)
            (record {
              fits = ground arith;
              whole = λ k. refl;
              full = λ k. absurd (ground arith);
              end_kept = λ k. absurd (ground arith);
            })
      | inr e ↦
          (let over : suc n < length (existing ++ entry) = ground arith in
            elim (Bool-cases (leb (suc n) (length log_truncation_marker))) [
              | inl f ↦
                  rw (p, e, f)
                    (cut-KeepsEnd (suc n) (existing ++ entry) _ over
                      (omega (
                        arith,
                        length-drop (length (existing ++ entry) - suc n) (existing ++ entry),
                      ))
                      (inl refl))
              | inr f ↦
                  (let room : length log_truncation_marker < suc n = ground arith in
                    let from =
                      length (existing ++ entry) - (suc n - length log_truncation_marker) in
                    rw (p, e, f)
                      (cut-KeepsEnd (suc n) (existing ++ entry) _ over
                        (omega (
                          arith,
                          length-append log_truncation_marker (drop from (existing ++ entry)),
                          length-drop from (existing ++ entry),
                        ))
                        (inr refl)))
            ])
    ]
