-- ===== src/Contract/Dynamic/Lazy.antt =====
-- crates/aelf-contract/src/lib.rs: a lazily initialized contract asks for its descriptors until it has them.
use aelf_web3_rust.Base.{
  ◌≡◌, refl, sym, ap, ◌∙◌, ℕ, zero, suc, List, [], ◌∷◌, replicate, some, Option-cases, inl, inr, ok,
  err, panic, ok-injective,
}
use aelf_web3_rust.Crypto.Crates.{Crates}
use aelf_web3_rust.Client.Action.{Provider}
use aelf_web3_rust.Client.Codec.{Codec}
use aelf_web3_rust.Contract.Reflect.{ContractResult, Reflect}
use aelf_web3_rust.Contract.Dynamic.{
  DynamicContract, LazyDynamicContract, at_address, fill, get_dynamic,
}

module _ {H W : Type 0} (provider : Provider H W) (codec : Codec) (crates : Crates)
    (reflect : Reflect) where
  abbrev Lazy : Type 0
  Lazy = LazyDynamicContract provider codec crates reflect

  abbrev Outcome : Type 0
  Outcome = ContractResult H (DynamicContract reflect) × Lazy × W

  -- The results of `n` calls one after the other, and what is left.
  abbrev pub calls : ℕ → Lazy → W → List (ContractResult H (DynamicContract reflect)) × Lazy × W
  calls zero self w = ([], self, w)
  calls (suc n) self w =
      let (r, self', w') = get_dynamic provider codec crates reflect self w in
      let (rs, self'', w'') = calls n self' w' in (r ∷ rs, self'', w'')

  full :
      (self : Lazy) (contract : DynamicContract reflect) (w : W)
      → self.dynamic ≡ some contract
      → get_dynamic provider codec crates reflect self w ≡ (ok contract, self, w)
  unfolding get_dynamic
  full self contract w h = simp (get_dynamic, h)

  filled :
      (self : Lazy) (r : ContractResult H (DynamicContract reflect) × W)
      (contract : DynamicContract reflect) (self' : Lazy) (w' : W)
      → fill provider codec crates reflect self r ≡ (ok contract, self', w')
      → self'.dynamic ≡ some contract
  filled self (ok c, w) contract self' w' h =
      let same : c ≡ contract = ok-injective (ap (λ (o : Outcome). o.0) h) in
      let cell = ap (λ (o : Outcome). o.1) h in
      sym (ap (λ (l : Lazy). l.dynamic) cell) ∙ ap some same
  filled self (err e, w) contract self' w' h = absurd (cc)
  filled self (panic, w) contract self' w' h = absurd (cc)

  after_success :
      (self self' : Lazy) (contract : DynamicContract reflect) (w w' : W)
      → get_dynamic provider codec crates reflect self w ≡ (ok contract, self', w')
      → self'.dynamic ≡ some contract
  unfolding get_dynamic
  after_success self self' contract w w' h = elim (Option-cases self.dynamic) [
    | inl e ↦
        filled self (at_address provider codec crates reflect self.address self.wallet w) contract
          self' w' (rw (get_dynamic, e) at h)
    | inr (c, e) ↦
        let h' : ◌≡◌ {A = Outcome} (ok c, self, w) (ok contract, self', w') =
          rw (get_dynamic, e) at h in
        let same : c ≡ contract = ok-injective (ap (λ (o : Outcome). o.0) h') in
        let cell : self ≡ self' = ap (λ (o : Outcome). o.1) h' in
        sym (ap (λ (l : Lazy). l.dynamic) cell) ∙ e ∙ ap some same
  ]

  calls-full :
      (n : ℕ) (self : Lazy) (contract : DynamicContract reflect) (w : W)
      → self.dynamic ≡ some contract
      → calls n self w ≡ (replicate n (ok contract), self, w)
  calls-full zero self contract w h = refl
  calls-full (suc n) self contract w h = rw (full self contract w h, calls-full n self contract w h)

  -- After a call of a lazily initialized contract that succeeded, any number of further calls, from any
  -- state of the provider, give that same contract, make no request and leave the cell as it is.
  pub get_dynamic-calls :
      (n : ℕ) (self self' : Lazy) (contract : DynamicContract reflect) (w w' w'' : W)
      → get_dynamic provider codec crates reflect self w ≡ (ok contract, self', w')
      → calls n self' w'' ≡ (replicate n (ok contract), self', w'')
  get_dynamic-calls n self self' contract w w' w'' h =
      calls-full n self' contract w'' (after_success self self' contract w w' h)
