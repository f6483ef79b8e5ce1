-- ===== src/KitePacket/Delim.antt =====
-- protocol/KitePacket.cpp, `delimPacket`: the first "\r\n".
use kiteq_client_cpp.Base.{
  ℕ, zero, suc, ◌+◌, ◌-◌, ◌≡◌, refl, sym, ap, ◌∙◌, inl, inr, List, [], ◌∷◌, ◌++◌, some, length,
  arith, Bool-cases, ◌==◌, ◌&&◌, if◌then◌else◌, append_assoc, length-append, get_elem?,
}
use kiteq_client_cpp.KitePacket.{done, delim_loop, delim_packet}

-- The specification: the length up to and with the first "\r\n", or 0 if there is none.
abbrev pub after_crlf : ℕ → ℕ
after_crlf zero = 0
after_crlf (suc n) = suc (suc n)

abbrev pub first_crlf : List ℕ → ℕ
first_crlf [] = 0
first_crlf (a ∷ []) = 0
first_crlf (a ∷ b ∷ cs) = if a == 13 && b == 10 then 2 else after_crlf (first_crlf (b ∷ cs))

-- A position in the whole buffer, of one behind n bytes.
abbrev behind : ℕ → ℕ → ℕ
behind n zero = 0
behind n (suc k) = n + suc k

behind_zero : (k : ℕ) → behind 0 k ≡ k
behind_zero zero = refl
behind_zero (suc k) = omega arith

behind_suc : (n k : ℕ) → behind (n + 1) k ≡ behind n (after_crlf k)
behind_suc n zero = refl
behind_suc n (suc k) = omega arith

get_elem?-at :
    (pre : List ℕ) (c : ℕ) (cs : List ℕ) (i : ℕ)
    → length pre ≡ i
    → get_elem? (pre ++ c ∷ cs) i ≡ some c
get_elem?-at [] c cs zero h = refl
get_elem?-at [] c cs (suc i) h = absurd (omega arith)
get_elem?-at (x ∷ pre) c cs zero h = absurd (omega arith)
get_elem?-at (x ∷ pre) c cs (suc i) h = get_elem?-at pre c cs i (omega arith)

delim_loop_lem :
    (cs : List ℕ) (pre : List ℕ) (a : ℕ)
    → delim_loop (pre ++ a ∷ cs) (length cs) (length pre + 1)
      ≡ done (behind (length pre) (first_crlf (a ∷ cs)))
unfolding delim_loop
delim_loop_lem [] pre a = refl
delim_loop_lem (b ∷ cs) pre a =
    let n = length pre in
    let buf : List ℕ = pre ++ a ∷ b ∷ cs in
    let longer : length (pre ++ a ∷ []) ≡ n + 1 = length-append pre (a ∷ []) in
    let moved : (pre ++ a ∷ []) ++ b ∷ cs ≡ buf = append_assoc pre (a ∷ []) (b ∷ cs) in
    let e1 : get_elem? buf (n + 1 - 1) ≡ some a =
      get_elem?-at pre a (b ∷ cs) (n + 1 - 1) (omega arith) in
    let e2 : get_elem? buf (n + 1) ≡ some b =
      ap (λ xs. get_elem? xs (n + 1)) (sym moved)
      ∙ get_elem?-at (pre ++ a ∷ []) b cs (n + 1) longer in
    let later : delim_loop buf (length cs) (n + 1 + 1)
        ≡ done (behind (n + 1) (first_crlf (b ∷ cs))) =
      rw (moved, longer) at (delim_loop_lem cs (pre ++ a ∷ []) b) in
    rw (e1, e2)
      (elim (Bool-cases (a == 13 && b == 10)) [
        | inl hit ↦ rw hit (ap done (omega arith))
        | inr miss ↦ rw miss (later ∙ ap done (behind_suc n (first_crlf (b ∷ cs))))
      ])

-- On a whole buffer `delimPacket` reads nothing out of range and returns the length up to and
-- with the first "\r\n", or 0 if there is none.
pub delim_packet-first_crlf : (buf : List ℕ) → delim_packet buf (length buf) ≡ done (first_crlf buf)
unfolding delim_packet delim_loop
delim_packet-first_crlf [] = refl
delim_packet-first_crlf (a ∷ cs) =
    let pred_suc : length (a ∷ cs) - 1 ≡ length cs = omega arith in
    rw pred_suc (delim_loop_lem cs [] a ∙ ap done (behind_zero (first_crlf (a ∷ cs))))
