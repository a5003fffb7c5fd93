-- ===== src/Util/Join.antt =====
-- `split` at a single delimiter undoes the joining of pieces.
use sunet.Base.{
  ℕ, ◌≡◌, ◌≢◌, refl, ap, ◌∙◌, inl, inr, Bool, true, false, List, [], ◌∷◌, ◌++◌, arith,
  if◌then◌else◌, Bool-cases, Bytes, Lacks, All, All-append, ==_iff,
}
use sunet.Util.{split, last_byte, is_member}
use sunet.Util.Fields.{fields, glue, split-fields}

member_ne : (c d : ℕ) → c ≢ d → is_member c (d ∷ []) ≡ false
unfolding is_member
member_ne c d h = ground arith

member_self : (d : ℕ) → is_member d (d ∷ []) ≡ true
unfolding is_member
member_self d = ground arith

cond_off {ℓ} : {A : Type ℓ} (b : Bool) (x y : A) → (b ≢ true) → (if b then x else y) ≡ y
cond_off true x y h = absurd (h refl)
cond_off false x y h = refl

pub append-ne-nil : (k : Bytes) (d : ℕ) (v : Bytes) → k ++ d ∷ v ≢ []
append-ne-nil [] d v = λ e. cc e
append-ne-nil (c ∷ k) d v = λ e. cc e

pub last_byte-append :
    (k : Bytes) (d : ℕ) (v : Bytes) → v ≢ [] → last_byte (k ++ d ∷ v) ≡ last_byte v
unfolding last_byte
last_byte-append [] d [] h = absurd (h refl)
last_byte-append [] d (c ∷ v) h = refl
last_byte-append (b ∷ []) d v h = last_byte-append [] d v h
last_byte-append (b ∷ c ∷ k) d v h = last_byte-append (c ∷ k) d v h

module _ (d : ℕ) where
  pub fields_of_Lacks : (v : Bytes) → Lacks d v → fields (d ∷ []) v ≡ v ∷ []
  unfolding fields glue
  fields_of_Lacks [] h = refl
  fields_of_Lacks (c ∷ v) h = rw (member_ne c d h.0, fields_of_Lacks v h.1)

  pub fields_cut :
      (k rest : Bytes) → Lacks d k → fields (d ∷ []) (k ++ d ∷ rest) ≡ k ∷ fields (d ∷ []) rest
  unfolding fields glue
  fields_cut [] rest h = rw (member_self d)
  fields_cut (c ∷ k) rest h = rw (member_ne c d h.0, fields_cut k rest h.1)

  -- The pieces with the delimiter between them.
  unfoldable pub join : List Bytes → Bytes
  join [] = []
  join (p ∷ []) = p
  join (p ∷ q ∷ ps) = p ++ d ∷ join (q ∷ ps)

  -- What holds of every byte of the pieces and of the delimiter holds of the joined text.
  pub join-All : (P : ℕ → Type 0) (ps : List Bytes) → P d → All (All P) ps → All P (join ps)
  unfolding join
  join-All P [] h hs = tt
  join-All P (p ∷ []) h hs = hs.0
  join-All P (p ∷ q ∷ ps) h hs =
      All-append P p (d ∷ join (q ∷ ps)) hs.0 (h, join-All P (q ∷ ps) h hs.1)

  pub join-ne-nil : (p : Bytes) (ps : List Bytes) → p ≢ [] → join (p ∷ ps) ≢ []
  unfolding join
  join-ne-nil p [] h = h
  join-ne-nil [] (q ∷ ps) h = absurd (h refl)
  join-ne-nil (c ∷ p) (q ∷ ps) h = λ e. cc e

  fields-join :
      (p : Bytes) (ps : List Bytes)
      → All (Lacks d) (p ∷ ps)
      → fields (d ∷ []) (join (p ∷ ps)) ≡ p ∷ ps
  unfolding join
  fields-join p [] h = fields_of_Lacks p h.0
  fields-join p (q ∷ ps) h = rw (fields_cut p (join (q ∷ ps)) h.0, fields-join q ps h.1)

  split_not_tab : (s : Bytes) → s ≢ [] → last_byte s ≢ b'\t' → split s (d ∷ []) ≡ fields (d ∷ []) s
  split_not_tab [] h t = absurd (h refl)
  split_not_tab (c ∷ s) h t = split-fields c s d [] ∙ cond_off _ _ _ (λ e. t ((==_iff _ _).0 e))

  -- Splitting joined pieces gives the pieces back: no piece holds the delimiter, and the joined
  -- text is not empty and does not end in a tab.
  pub split-join :
      (p : Bytes) (ps : List Bytes)
      → All (Lacks d) (p ∷ ps)
      → join (p ∷ ps) ≢ []
      → last_byte (join (p ∷ ps)) ≢ b'\t'
      → split (join (p ∷ ps)) (d ∷ []) ≡ p ∷ ps
  split-join p ps h full no_tab = rw (split_not_tab _ full no_tab) (fields-join p ps h)

  -- One piece with no delimiter.
  pub split_single :
      (v : Bytes) → v ≢ [] → Lacks d v → last_byte v ≢ b'\t' → split v (d ∷ []) ≡ v ∷ []
  split_single v full h no_tab = split_not_tab v full no_tab ∙ fields_of_Lacks v h

  -- Two pieces around one delimiter.
  pub split_pair :
      (k v : Bytes)
      → Lacks d k
      → Lacks d v
      → last_byte (k ++ d ∷ v) ≢ b'\t'
      → split (k ++ d ∷ v) (d ∷ []) ≡ k ∷ v ∷ []
  split_pair k v hk hv no_tab =
      split_not_tab (k ++ d ∷ v) (append-ne-nil k d v) no_tab
      ∙ fields_cut k v hk
      ∙ ap (◌∷◌ k) (fields_of_Lacks v hv)

  not_member : (c : ℕ) → is_member c (d ∷ []) ≡ false → c ≢ d
  unfolding is_member
  not_member c h = ground arith

  is_delim : (c : ℕ) → is_member c (d ∷ []) ≡ true → d ≡ c
  unfolding is_member
  is_delim c h = ground arith

  glue-Lacks :
      (c : ℕ) (ps : List Bytes) → c ≢ d → All (Lacks d) ps → All (Lacks d) (glue false c ps)
  unfolding glue
  glue-Lacks c [] h hs = ((h, tt), tt)
  glue-Lacks c (p ∷ ps) h hs = ((h, hs.0), hs.1)

  glue-ne-nil : (b : Bool) (c : ℕ) (ps : List Bytes) → glue b c ps ≢ []
  unfolding glue
  glue-ne-nil true c ps = λ e. cc e
  glue-ne-nil false c [] = λ e. cc e
  glue-ne-nil false c (p ∷ ps) = λ e. cc e

  fields-ne-nil : (s : Bytes) → fields (d ∷ []) s ≢ []
  unfolding fields
  fields-ne-nil [] = λ e. cc e
  fields-ne-nil (c ∷ s) = glue-ne-nil (is_member c (d ∷ [])) c (fields (d ∷ []) s)

  join-glue-true : (c : ℕ) (ps : List Bytes) → ps ≢ [] → join (glue true c ps) ≡ d ∷ join ps
  unfolding join glue
  join-glue-true c [] h = absurd (h refl)
  join-glue-true c (p ∷ ps) h = refl

  join-glue-false : (c : ℕ) (ps : List Bytes) → join (glue false c ps) ≡ c ∷ join ps
  unfolding join glue
  join-glue-false c [] = refl
  join-glue-false c (p ∷ []) = refl
  join-glue-false c (p ∷ q ∷ ps) = refl

  -- No piece of a text holds the delimiter.
  pub fields-Lacks : (s : Bytes) → All (Lacks d) (fields (d ∷ []) s)
  unfolding fields glue
  fields-Lacks [] = (tt, tt)
  fields-Lacks (c ∷ s) = elim (Bool-cases (is_member c (d ∷ []))) [
    | inl e ↦ rw e (tt, fields-Lacks s)
    | inr e ↦ rw e (glue-Lacks c (fields (d ∷ []) s) (not_member c e) (fields-Lacks s))
  ]

  -- Joining the pieces of a text gives the text back.
  pub join-fields : (s : Bytes) → join (fields (d ∷ []) s) ≡ s
  unfolding fields
  join-fields [] = unfold join in refl
  join-fields (c ∷ s) = elim (Bool-cases (is_member c (d ∷ []))) [
    | inl e ↦ rw e (
        rw (join-glue-true c (fields (d ∷ []) s) (fields-ne-nil s), join-fields s)
          (ap (λ (b : ℕ). b ∷ s) (is_delim c e)))
    | inr e ↦ rw (e, join-glue-false c (fields (d ∷ []) s), join-fields s)
  ]
