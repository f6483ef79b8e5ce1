-- ===== src/Commons/HostPort/Laws.antt =====
-- commons/HostPort.hpp: which addresses `parse` takes, and that it inverts `toString`.
use kiteq_client_cpp.Base.{
  ℕ, zero, suc, ◌≡◌, ◌≢◌, refl, ap, ◌∙◌, ◌⊎◌, inl, inr, Bool, true, false, List, [], ◌∷◌, ◌++◌,
  none, some, length, arith, if◌then◌else◌, All, Bool-cases,
}
use native.Mathlib.Decide.{ℕ_discrete}
use kiteq_client_cpp.Commons.HostPort.{
  Splitter, HostPort, default_host, default_port, or_default, is_colon, is_query, of_parts, parse,
  to_string, front, server_address,
}

-- The number of colons, and the number of separators.
abbrev pub count : (ℕ → Bool) → List ℕ → ℕ
count sep [] = 0
count sep (c ∷ cs) = if sep c then suc (count sep cs) else count sep cs

count_none : (sep : ℕ → Bool) (a : List ℕ) → count sep a ≡ 0 → All (λ c. sep c ≡ false) a
count_none sep [] h = tt
count_none sep (c ∷ cs) h = elim (Bool-cases (sep c)) [
  | inl e ↦ absurd (ground arith)
  | inr e ↦ (e, count_none sep cs (ground arith))
]

-- A text with a separator, cut at the first one.
record IsCut (sep : ℕ → Bool) (s : List ℕ) : Type 0 where
  before : List ℕ
  at_sep : ℕ
  rest : List ℕ
  whole : s ≡ before ++ at_sep ∷ rest
  free : All (λ c. sep c ≡ false) before
  is_sep : sep at_sep ≡ true
  counts : count sep s ≡ suc (count sep rest)

IsCut-at : (sep : ℕ → Bool) (s : List ℕ) → count sep s ≢ 0 → IsCut sep s
IsCut-at sep [] h = absurd (h refl)
IsCut-at sep (c ∷ cs) h = elim (Bool-cases (sep c)) [
  | inl e ↦ record {
    before = [];
    at_sep = c;
    rest = cs;
    whole = refl;
    free = tt;
    is_sep = e;
    counts = rw e;
  }
  | inr e ↦
      let k = IsCut-at sep cs (ground arith) in
      record {
        before = c ∷ k.before;
        at_sep = k.at_sep;
        rest = k.rest;
        whole = ap (◌∷◌ c) k.whole;
        free = (e, k.free);
        is_sep = k.is_sep;
        counts = rw e k.counts;
      }
]

of_parts_other : (parts : List (List ℕ)) → length parts ≢ 2 → of_parts parts ≡ none
unfolding of_parts
of_parts_other [] h = refl
of_parts_other (a ∷ []) h = refl
of_parts_other (a ∷ b ∷ []) h = absurd (h refl)
of_parts_other (a ∷ b ∷ c ∷ rest) h = refl

or_default_some : (xs d : List ℕ) → xs ≢ [] → or_default xs d ≡ xs
or_default_some [] d h = absurd (h refl)
or_default_some (c ∷ cs) d h = refl

or_default-ne : (xs : List ℕ) (c : ℕ) (cs : List ℕ) → or_default xs (c ∷ cs) ≢ []
or_default-ne [] c cs e = cc
or_default-ne (x ∷ xs) c cs e = cc

module _ (sp : Splitter) where
  split_cut :
      (sep : ℕ → Bool) (s : List ℕ) (k : IsCut sep s)
      → sp.split sep s ≡ k.before ∷ sp.split sep k.rest
  split_cut sep s k =
      ap (sp.split sep) k.whole ∙ sp.split_more sep k.before k.at_sep k.rest k.free k.is_sep

  -- There is one token more than there are separators.
  length-split :
      (sep : ℕ → Bool) (n : ℕ) (s : List ℕ) → count sep s ≡ n → length (sp.split sep s) ≡ suc n
  length-split sep zero s e = rw (sp.split_one sep s (count_none sep s e))
  length-split sep (suc n) s e =
      let k = IsCut-at sep s (λ z. absurd (omega (arith, z))) in
      rw (split_cut sep s k) (ap suc (length-split sep n k.rest (omega (arith, k.counts))))

  parse-none : (s : List ℕ) → count is_colon s ≢ 1 → parse sp s ≡ none
  unfolding parse
  parse-none s h =
      of_parts_other (sp.split is_colon s)
        (λ e. h (omega (arith, e, length-split is_colon (count is_colon s) s refl)))

  -- The one colon cuts the address, and an empty half is filled in.
  pub parse-some :
      (h p : List ℕ)
      → All (λ c. is_colon c ≡ false) h
      → All (λ c. is_colon c ≡ false) p
      → parse sp (h ++ b':' ∷ p)
        ≡ some (record { host = or_default h default_host; port = or_default p default_port })
  unfolding parse of_parts
  parse-some h p free_h free_p =
      rw (sp.split_more is_colon h b':' p free_h refl, sp.split_one is_colon p free_p)

  -- `HostPort::parse` returns null exactly for a text that has not exactly one colon, and
  -- otherwise a host and a port that are not empty.
  pub parse_iff :
      (s : List ℕ)
      → ((count is_colon s ≢ 1) × (parse sp s ≡ none))
        ⊎ ((count is_colon s ≡ 1)
            × ((hp : HostPort) × (parse sp s ≡ some hp) × (hp.host ≢ []) × (hp.port ≢ [])))
  parse_iff s = elim (ℕ_discrete (count is_colon s) 1) [
    | no more ↦ inl (more, parse-none s more)
    | yes one ↦
        let k = IsCut-at is_colon s (λ z. absurd (omega (arith, z))) in
        let free : All (λ c. is_colon c ≡ false) k.rest =
          count_none is_colon k.rest (omega (arith, k.counts)) in
        inr (
          one,
          (
            record {
              host = or_default k.before default_host;
              port = or_default k.rest default_port;
            },
            unfold parse of_parts in rw (split_cut is_colon s k, sp.split_one is_colon k.rest free),
            or_default-ne k.before _ _,
            or_default-ne k.rest _ _,
          ),
        )
  ]

  -- `parse` of `toString` gives the address back, if its host and its port are not empty and
  -- have no colon.
  pub parse-to_string :
      (hp : HostPort)
      → hp.host ≢ []
      → hp.port ≢ []
      → All (λ c. is_colon c ≡ false) hp.host
      → All (λ c. is_colon c ≡ false) hp.port
      → parse sp (to_string hp) ≡ some hp
  unfolding to_string
  parse-to_string hp h p free_h free_p =
      parse-some hp.host hp.port free_h free_p
      ∙ ground (arith, or_default_some hp.host default_host, or_default_some hp.port default_port)

  -- The server's address is `parse` of the URL up to its first `?` or `\`: what stands behind
  -- it does not matter.
  pub server_address-query :
      (a : List ℕ) (c : ℕ) (query : List ℕ)
      → All (λ b. is_query b ≡ false) a
      → is_query c ≡ true
      → (server_address sp (a ++ c ∷ query) ≡ parse sp a) × (server_address sp a ≡ parse sp a)
  unfolding server_address front
  server_address-query a c query free e =
      (rw (sp.split_more is_query a c query free e), rw (sp.split_one is_query a free))
