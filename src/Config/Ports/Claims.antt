-- ===== src/Config/Ports/Claims.antt =====
-- The loop over the models (internal/config/validate.go: `ValidatePortCollisions`): which origins it
-- enters, and who may share one.
use llama_proxy.Prelude.{
  ◌≡◌, ◌≢◌, sym, ap, subst, ◌∙◌, true, false, ◌⊎◌, inl, inr, Option, some, [], ◌∷◌, arith, Text,
  Map, In, lookup, lookup-insert, eq_text_iff, eq_text→eq, eq_text_refl, is_empty, is_some,
  Bool-cases, Option-cases,
}
use llama_proxy.Config.{ProcessConfig, is_coding}
use llama_proxy.Config.ModelIds.{Location, scheduling}
use llama_proxy.Config.Ports.{
  OriginClaim, Origins, enter_code, enter_bg, claim_of, origin_of, claim_ports,
}

module _ (parse_url : Text → Option (Text × Text)) where
  pub claim_ports-keep :
      (s : Origins) (m : Map ProcessConfig) (out : Origins) (o : Text) (c : OriginClaim)
      → claim_ports parse_url s m ≡ inr out
      → lookup o s.bg_seen ≡ some c
      → lookup o out.bg_seen ≡ some c
  unfolding claim_ports
  claim_ports-keep s [] out o c ok held = ground arith
  claim_ports-keep s ((id, e) ∷ m) out o c ok held =
      let origin = origin_of parse_url e.readiness_url in
      ground (
        arith,
        claim_ports-keep (enter_code s origin (scheduling id)) m out o c,
        claim_ports-keep s m out o c,
        claim_ports-keep (enter_bg s origin (claim_of id e)) m out o c,
        lookup-insert origin o (claim_of id e) s.bg_seen,
        eq_text_iff origin o,
      )

  pub claim_ports-keep_code :
      (s : Origins) (m : Map ProcessConfig) (out : Origins) (o : Text) (w : Location)
      → claim_ports parse_url s m ≡ inr out
      → lookup o s.code_origins ≡ some w
      → lookup o out.code_origins ≡ some w
  unfolding claim_ports
  claim_ports-keep_code s [] out o w ok held = ground arith
  claim_ports-keep_code s ((id, e) ∷ m) out o w ok held =
      let origin = origin_of parse_url e.readiness_url in
      ground (
        arith,
        claim_ports-keep_code (enter_code s origin (scheduling id)) m out o w,
        claim_ports-keep_code s m out o w,
        claim_ports-keep_code (enter_bg s origin (claim_of id e)) m out o w,
        lookup-insert origin o (scheduling id) s.code_origins,
        eq_text_iff origin o,
      )

  abbrev pub Sharing : OriginClaim → ProcessConfig → Type 0
  Sharing c e =
      (is_empty e.gpu ≡ false) × (e.gpu ≡ c.gpu) × (c.resident ≡ false) × (e.resident ≡ false)

  -- A later background model on a claimed origin is in the claim's swap-in group.
  pub claim_ports-Sharing :
      (s : Origins) (m : Map ProcessConfig) (out : Origins) (c : OriginClaim) (j : Text)
      (b : ProcessConfig)
      → claim_ports parse_url s m ≡ inr out
      → lookup (origin_of parse_url b.readiness_url) s.bg_seen ≡ some c
      → In (j, b) m
      → is_coding b ≡ false
      → is_empty (origin_of parse_url b.readiness_url) ≡ false
      → Sharing c b
  unfolding claim_ports
  claim_ports-Sharing s [] out c j b ok held here bg full = absurd here
  claim_ports-Sharing s ((id, e) ∷ m) out c j b ok held (inl same) bg full =
      ground (arith, eq_text→eq e.gpu c.gpu)
  claim_ports-Sharing s ((id, e) ∷ m) out c j b ok held (inr later) bg full =
      let origin = origin_of parse_url e.readiness_url in
      let o = origin_of parse_url b.readiness_url in
      ground (
        arith,
        claim_ports-Sharing (enter_code s origin (scheduling id)) m out c j b,
        claim_ports-Sharing s m out c j b,
        claim_ports-Sharing (enter_bg s origin (claim_of id e)) m out c j b,
        lookup-insert origin o (claim_of id e) s.bg_seen,
        eq_text_iff origin o,
      )

  -- Two background models on one origin share a declared gpu, and neither is resident.
  abbrev pub SwapsWith : ProcessConfig → ProcessConfig → Type 0
  SwapsWith a b =
      (is_empty a.gpu ≡ false) × (a.gpu ≡ b.gpu) × (a.resident ≡ false) × (b.resident ≡ false)

  pub claim_ports-head :
      (s : Origins) (m : Map ProcessConfig) (out : Origins) (k j : Text) (e b : ProcessConfig)
      → claim_ports parse_url s ((k, e) ∷ m) ≡ inr out
      → In (j, b) m
      → is_coding e ≡ false
      → is_coding b ≡ false
      → origin_of parse_url e.readiness_url ≡ origin_of parse_url b.readiness_url
      → is_empty (origin_of parse_url b.readiness_url) ≡ false
      → SwapsWith e b
  unfolding claim_ports
  claim_ports-head s m out k j e b ok hb ce cb same full =
      let o = origin_of parse_url b.readiness_url in
      elim (Option-cases (lookup o s.bg_seen)) [
        | inl free ↦ ground (
          arith,
          claim_ports-Sharing (enter_bg s o (claim_of k e)) m out (claim_of k e) j b,
          lookup-insert o o (claim_of k e) s.bg_seen,
          eq_text_refl o,
        )
        | inr (c, taken) ↦ ground (arith, eq_text→eq e.gpu c.gpu, claim_ports-Sharing s m out c j b)
      ]

  pub claim_ports-SwapsWith :
      (s : Origins) (m : Map ProcessConfig) (out : Origins) (i j : Text) (a b : ProcessConfig)
      → claim_ports parse_url s m ≡ inr out
      → In (i, a) m
      → In (j, b) m
      → i ≢ j
      → is_coding a ≡ false
      → is_coding b ≡ false
      → origin_of parse_url a.readiness_url ≡ origin_of parse_url b.readiness_url
      → is_empty (origin_of parse_url b.readiness_url) ≡ false
      → SwapsWith a b
  unfolding claim_ports
  claim_ports-SwapsWith s [] out i j a b ok ha hb ne ca cb same full = absurd ha
  claim_ports-SwapsWith s ((k, e) ∷ m) out i j a b ok (inl ha) (inl hb) ne ca cb same full =
      absurd (ne (ap (λ p. p.0) (sym ha ∙ hb)))
  claim_ports-SwapsWith s ((k, e) ∷ m) out i j a b ok (inl ha) (inr hb) ne ca cb same full =
      subst (λ p. SwapsWith p.1 b) ha
        (claim_ports-head s m out k j e b ok hb (rw (ap (λ p. p.1) ha) ca) cb
          (rw (ap (λ p. p.1) ha) same) full)
  claim_ports-SwapsWith s ((k, e) ∷ m) out i j a b ok (inr ha) (inl hb) ne ca cb same full =
      subst (λ p. SwapsWith a p.1) hb
        (swap e a (
          claim_ports-head s m out k i e a ok ha (rw (ap (λ p. p.1) hb) cb) ca
            (rw (ap (λ p. p.1) hb) (sym same)) (rw same full)))
    where
      swap : (x y : ProcessConfig) → SwapsWith x y → SwapsWith y x
      swap x y h = (rw (sym h.1) h.0, sym h.1, h.3, h.2)
  claim_ports-SwapsWith s ((k, e) ∷ m) out i j a b ok (inr ha) (inr hb) ne ca cb same full =
      let origin = origin_of parse_url e.readiness_url in
      ground (
        arith,
        claim_ports-SwapsWith (enter_code s origin (scheduling k)) m out i j a b,
        claim_ports-SwapsWith s m out i j a b,
        claim_ports-SwapsWith (enter_bg s origin (claim_of k e)) m out i j a b,
      )

  abbrev pub Entered : Origins → Text → Type 0
  Entered s o = (is_some (lookup o s.bg_seen) ≡ true) ⊎ (is_some (lookup o s.code_origins) ≡ true)

  pub enters_code :
      (s : Origins) (m : Map ProcessConfig) (out : Origins) (o : Text) (w : Location)
      → claim_ports parse_url (enter_code s o w) m ≡ inr out
      → is_empty o ≡ false
      → Entered out o
  enters_code s m out o w ok full = elim (Option-cases (lookup o s.code_origins)) [
    | inl free ↦ ground (
      arith,
      claim_ports-keep_code (enter_code s o w) m out o w,
      lookup-insert o o w s.code_origins,
      eq_text_refl o,
    )
    | inr (v, held) ↦ ground (arith, claim_ports-keep_code s m out o v)
  ]

  pub enters_head :
      (s : Origins) (m : Map ProcessConfig) (out : Origins) (k : Text) (e : ProcessConfig)
      → claim_ports parse_url s ((k, e) ∷ m) ≡ inr out
      → is_empty (origin_of parse_url e.readiness_url) ≡ false
      → Entered out (origin_of parse_url e.readiness_url)
  unfolding claim_ports
  enters_head s m out k e ok full =
      let o = origin_of parse_url e.readiness_url in
      elim (Bool-cases (is_coding e)) [
        | inl code ↦ enters_code s m out o (scheduling k) (ground arith) full
        | inr bg ↦ elim (Option-cases (lookup o s.bg_seen)) [
          | inl free ↦ ground (
            arith,
            claim_ports-keep (enter_bg s o (claim_of k e)) m out o (claim_of k e),
            lookup-insert o o (claim_of k e) s.bg_seen,
            eq_text_refl o,
          )
          | inr (c, held) ↦ ground (arith, claim_ports-keep s m out o c)
        ]
      ]

  -- The origin of every model is entered.
  pub claim_ports-enters :
      (s : Origins) (m : Map ProcessConfig) (out : Origins) (i : Text) (a : ProcessConfig)
      → claim_ports parse_url s m ≡ inr out
      → In (i, a) m
      → is_empty (origin_of parse_url a.readiness_url) ≡ false
      → Entered out (origin_of parse_url a.readiness_url)
  unfolding claim_ports
  claim_ports-enters s [] out i a ok here full = absurd here
  claim_ports-enters s ((k, e) ∷ m) out i a ok (inl same) full =
      subst (λ p. Entered out (origin_of parse_url p.1.readiness_url)) same
        (enters_head s m out k e ok (rw (ap (λ p. p.1) same) full))
  claim_ports-enters s ((k, e) ∷ m) out i a ok (inr later) full =
      let origin = origin_of parse_url e.readiness_url in
      ground (
        arith,
        claim_ports-enters (enter_code s origin (scheduling k)) m out i a,
        claim_ports-enters s m out i a,
        claim_ports-enters (enter_bg s origin (claim_of k e)) m out i a,
      )
