-- ===== src/Acpi/Search.antt =====
-- `acpi_parse_fadt`: what the search of `_S5_` leads to.
use piggy_os.Base.{
  Bool, true, false, ℕ, zero, suc, ◌+◌, ◌-◌, ◌^◌, ◌<◌, ◌≡◌, ◌≢◌, refl, sym, ap, ◌∙◌, subst, arith,
  ◌==◌, ltb, if◌then◌else◌, sub32, if_true, if_false, ne→==, Bool-cases, inl, inr, ==_iff, ◌%◌,
}
use piggy_os.Strings.{Memory, memcmp, word_at}
use piggy_os.Strings.Compare.{SameWords, SameWords-self, memcmp-zero}
use piggy_os.Acpi.Checksum.{sum, checksum-sum}
use piggy_os.Acpi.{
  Acpi, Parsed, s5_not_found, log, checksum, length_of, header_size, search_s5, take_registers,
  dsdt_of, acpi_parse_fadt,
}

same_pair : (a c b d : ℕ) → a ≡ c → b ≡ d → ◌≡◌ {A = ℕ × ℕ} (a, b) (c, d)
same_pair a c b d x y = cc

module _ (name : ℕ) (mem : Memory) where
  -- The four words from `p` on are those from the text on, or not so at the `n` addresses from `p` on.
  abbrev pub Here : ℕ → Type 0
  Here p = SameWords 4 p name mem

  abbrev pub Without : (n p : ℕ) → Type 0
  Without n p = (j : ℕ) → j < n → ¬ Here (p + j)

  -- The same of the answers of `memcmp`.
  abbrev Zero : ℕ → Type 0
  Zero p = memcmp p name 4 mem ≡ 0

  abbrev NonZero : (n p : ℕ) → Type 0
  NonZero n p = (j : ℕ) → j < n → memcmp (p + j) name 4 mem ≢ 0

  Here-Zero : (p : ℕ) → Here p → Zero p
  unfolding memcmp
  Here-Zero p h = elim (Bool-cases (p == name)) [
    | inl e ↦ if_true (p == name) 0 _ e
    | inr e ↦ (memcmp-zero p name 4 mem (λ q. ground arith)).1 h
  ]

  Zero-Here : (p : ℕ) → Zero p → Here p
  Zero-Here p z = elim (Bool-cases (p == name)) [
    | inl e ↦
        let at : p ≡ name = (==_iff p name).0 e in
        subst (λ q. SameWords 4 q name mem) (sym at) (SameWords-self 4 name mem)
    | inr e ↦ (memcmp-zero p name 4 mem (λ q. ground arith)).0 z
  ]

  away-NonZero : (n p : ℕ) → Without n p → NonZero n p
  away-NonZero n p away j lt z = away j lt (Zero-Here (p + j) z)

  search_s5-go :
      (len p : ℕ)
      → memcmp p name 4 mem ≢ 0
      → search_s5 (suc len) p name mem ≡ search_s5 len (p + 1) name mem
  unfolding search_s5
  search_s5-go len p away =
      if_false (memcmp p name 4 mem == 0) (len, p) (search_s5 len (p + 1) name mem)
        (ne→== (memcmp p name 4 mem) 0 away)

  at_zero : (p : ℕ) → p + 0 ≡ p
  at_zero p = omega arith

  at_start : (p : ℕ) → memcmp (p + 0) name 4 mem ≢ 0 → memcmp p name 4 mem ≢ 0
  at_start p away = subst (λ q. memcmp q name 4 mem ≢ 0) (at_zero p) away

  later : (n p : ℕ) → NonZero (suc n) p → NonZero n (p + 1)
  later n p away j lt =
      let e : p + suc j ≡ p + 1 + j = omega arith in
      subst (λ q. memcmp q name 4 mem ≢ 0) e (away (suc j) (omega arith))

  pub search_s5-first :
      (len p n : ℕ)
      → n < len
      → NonZero n p
      → Zero (p + n)
      → search_s5 len p name mem ≡ (len - 1 - n, p + n)
  unfolding search_s5
  search_s5-first zero p n lt away here = absurd (omega arith)
  search_s5-first (suc len) p zero lt away here =
      if_true (memcmp p name 4 mem == 0) (len, p) (search_s5 len (p + 1) name mem)
        (ap (λ t. t == 0) (subst (λ q. Zero q) (at_zero p) here))
      ∙ same_pair len (suc len - 1 - 0) p (p + 0) (omega arith) (sym (at_zero p))
  search_s5-first (suc len) p (suc n) lt away here =
      let e : p + suc n ≡ p + 1 + n = omega arith in
      search_s5-go len p (at_start p (away 0 (omega arith)))
      ∙ search_s5-first len (p + 1) n (omega arith) (later n p away) (subst (λ q. Zero q) e here)
      ∙ same_pair (len - 1 - n) (suc len - 1 - suc n) (p + 1 + n) (p + suc n) (omega arith) (sym e)

  pub search_s5-missing :
      (len p : ℕ) → NonZero len p → search_s5 len p name mem ≡ (2 ^ 32 - 1, p + len)
  unfolding search_s5
  search_s5-missing zero p away =
      same_pair (2 ^ 32 - 1) (2 ^ 32 - 1) p (p + 0) refl (sym (at_zero p))
  search_s5-missing (suc len) p away =
      search_s5-go len p (at_start p (away 0 (omega arith)))
      ∙ search_s5-missing len (p + 1) (later len p away)
      ∙ same_pair (2 ^ 32 - 1) (2 ^ 32 - 1) (p + 1 + len) (p + suc len) refl (omega arith)

  parse-searched :
      (fadt : ℕ) (s : Parsed)
      → checksum (dsdt_of fadt mem) mem ≡ 0
      → (k q : ℕ)
      → search_s5
          (sub32 (length_of (dsdt_of fadt mem) mem) header_size)
          (dsdt_of fadt mem + header_size)
          name
          mem
        ≡ (k, q)
      → acpi_parse_fadt fadt name mem s ≡ take_registers k fadt mem s
  unfolding acpi_parse_fadt
  parse-searched fadt s sum k q e = rw (sum, e) refl

  -- How the search of `len` bytes from `start` ends, and whether the registers are taken over.
  pub data Search (len start : ℕ) : (taken : Bool) → Type 0 where
    missing : Without len start → Search len start true
    before : (n : ℕ) → n + 1 < len → Without n start → Here (start + n) → Search len start true
    last : (n : ℕ) → n + 1 ≡ len → Without n start → Here (start + n) → Search len start false

  -- The bytes that are searched: those behind the header of the description table.
  abbrev searched : (fadt : ℕ) → ℕ
  searched fadt = sub32 (length_of (dsdt_of fadt mem) mem) header_size

  -- What the table at `fadt` says, where the bytes stand.
  abbrev pub said : (fadt : ℕ) → Acpi → Acpi
  said fadt a = record {
    smi_cmd = word_at mem (fadt + 48);
    acpi_enable = mem (fadt + 52);
    acpi_disable = mem (fadt + 53);
    pm1a_cnt = word_at mem (fadt + 64);
    pm1b_cnt = word_at mem (fadt + 68);
    slp_typa = a.slp_typa;
    slp_typb = a.slp_typb;
    slp_en = 2 ^ 13;
    sci_en = 1;
    pm1_cnt_len = mem (fadt + 89);
  }

  correct : (dsdt : ℕ) → sum (word_at mem (dsdt + 4)) dsdt mem % 2 ^ 8 ≡ 0 → checksum dsdt mem ≡ 0
  correct dsdt e = checksum-sum dsdt mem ∙ e

  -- The bytes of the description table add up to a multiple of 256, and those behind its header of 36
  -- bytes are searched. Where at none of them 16 bytes begin that are those from the text `_S5_` on,
  -- the registers and numbers of the table at `fadt` are taken over and nothing is logged, and likewise
  -- where such bytes begin before the last byte; where they first begin at the last byte, the code logs
  -- that there is no `_S5_`, and takes over nothing.
  pub acpi_parse_fadt-Search :
      (fadt : ℕ) (s : Parsed) (taken : Bool)
      → let dsdt = word_at mem (fadt + 40) in
        sum (word_at mem (dsdt + 4)) dsdt mem % 2 ^ 8 ≡ 0
        → Search (sub32 (word_at mem (dsdt + 4)) 36) (dsdt + 36) taken
        → acpi_parse_fadt fadt name mem s
          ≡ (if taken then record s { acpi = said fadt s.acpi } else log s5_not_found s)
  acpi_parse_fadt-Search fadt s true e (missing away) =
      let len = searched fadt in
      let start = dsdt_of fadt mem + header_size in
      parse-searched fadt s (correct (dsdt_of fadt mem) e) (2 ^ 32 - 1) (start + len)
        (search_s5-missing len start (away-NonZero len start away))
  acpi_parse_fadt-Search fadt s true e (before n lt away here) =
      let k = searched fadt - 1 - n in
      let start = dsdt_of fadt mem + header_size in
      parse-searched fadt s (correct (dsdt_of fadt mem) e) k (start + n) (
        search_s5-first (searched fadt) start n (omega arith) (away-NonZero n start away)
          (Here-Zero (start + n) here))
      ∙ if_true (ltb 0 k) _ _ (ground arith)
  acpi_parse_fadt-Search fadt s false e (last n end away here) =
      let k = searched fadt - 1 - n in
      let start = dsdt_of fadt mem + header_size in
      parse-searched fadt s (correct (dsdt_of fadt mem) e) k (start + n) (
        search_s5-first (searched fadt) start n (omega arith) (away-NonZero n start away)
          (Here-Zero (start + n) here))
      ∙ if_false (ltb 0 k) _ _ (ground arith)
