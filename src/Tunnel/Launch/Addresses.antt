-- ===== src/Tunnel/Launch/Addresses.antt =====
-- What `run_tunnel` makes of its two addresses.
use msg.Prelude.{
  ℕ, suc, ◌<◌, ◌%◌, ◌^◌, ◌≡◌, refl, sym, ap, ap₂, subst, ◌∙◌, Bool, true, Option, none, some, List,
  [], ◌∷◌, ◌++◌, length, take, drop, take-append, if◌then◌else◌, Result, ok, throws, diverges,
  ◌>>=◌, >>=-eq-ok, ok_inj, system_error, All, Bool-cases, inl, inr, arith,
}
use msg.Bytes.{ByteVector}
use msg.Random.{Random}
use msg.Crypto.{Crypto}
use msg.Tunnel.Text.{rfind, stoull, digits_from}
use msg.Tunnel.Text.Numbers.{IsDigit, rfind-digits, rfind-append, stoull-digits}
use msg.Tunnel.Chain.{ProcessorChain}
use msg.Tunnel.Config.{Draws, build_processor_chain}
use msg.Tunnel.Launch.{
  port_of, Start, listening, open_acceptor, check_chain, with_ports, start_at, run_tunnel,
}

-- An address, a colon and digits.
abbrev pub address_text : ByteVector → ByteVector → ByteVector
address_text ip digits = ip ++ b':' ∷ digits

-- A port in decimal that fits into 64 bits.
abbrev pub IsNumber : ByteVector → Type 0
IsNumber [] = ⊥
IsNumber (d ∷ ds) = All IsDigit (d ∷ ds) × (digits_from 0 (d ∷ ds) < 2 ^ 64)

pub colon_found :
    (ip ds : ByteVector) → IsNumber ds → rfind b':' (address_text ip ds) ≡ some (length ip)
colon_found ip [] number = absurd number
colon_found ip (d ∷ ds) number = rfind-append ip (d ∷ ds) (rfind-digits (d ∷ ds) number.0)

pub ip_found : (ip ds : ByteVector) → take (length ip) (address_text ip ds) ≡ ip
ip_found ip ds = take-append (length ip) ip (b':' ∷ ds) refl

digits_found : (ip ds : ByteVector) → drop (suc (length ip)) (address_text ip ds) ≡ ds
digits_found [] ds = refl
digits_found (c ∷ ip) ds = digits_found ip ds

pub port_found :
    (ip ds : ByteVector)
    → IsNumber ds
    → port_of (drop (suc (length ip)) (address_text ip ds)) ≡ ok (digits_from 0 ds % 2 ^ 16)
unfolding port_of
port_found ip [] number = absurd number
port_found ip (d ∷ ds) number =
    ap (λ s. stoull s >>= λ n. ok (n % 2 ^ 16)) (digits_found ip (d ∷ ds))
    ∙ ap (λ m. m >>= λ n. ok (n % 2 ^ 16)) (stoull-digits d ds number.0.0 number.1)

module _ {Address : Type 0} (make_address : ByteVector → Option Address)
    (opens : Address × ℕ → Bool) (R : Random) (C : Crypto) (draws : ℕ → Draws C) where
  -- With ports in decimal, addresses that `make_address` takes (they may hold colons), processors
  -- that can be built and an acceptor that can be opened, the tunnel listens at the first address and
  -- leads to the second, each with the last 16 bits of the port that is written there.
  pub listens_where_told :
      (ip₁ ip₂ ds₁ ds₂ : ByteVector) (a b : Address) (specs : List ByteVector) (backwards : Bool)
      (c : ProcessorChain R C)
      → IsNumber ds₁
      → IsNumber ds₂
      → make_address ip₁ ≡ some a
      → make_address ip₂ ≡ some b
      → build_processor_chain R C draws specs backwards ≡ ok (some c)
      → opens (a, digits_from 0 ds₁ % 2 ^ 16) ≡ true
      → run_tunnel make_address opens R C draws
          (address_text ip₁ ds₁)
          (address_text ip₂ ds₂)
          specs
          backwards
        ≡ ok (listening (a, digits_from 0 ds₁ % 2 ^ 16) (b, digits_from 0 ds₂ % 2 ^ 16))
  unfolding run_tunnel start_at check_chain with_ports open_acceptor
  listens_where_told ip₁ ip₂ ds₁ ds₂ a b specs backwards c n₁ n₂ e₁ e₂ built opened =
      let t₁ = address_text ip₁ ds₁ in
      let t₂ = address_text ip₂ ds₂ in
      let p₁ = digits_from 0 ds₁ % 2 ^ 16 in
      let p₂ = digits_from 0 ds₂ % 2 ^ 16 in
      let found =
        ap₂ (start_at make_address opens R C draws t₁ t₂ specs backwards) (colon_found ip₁ ds₁ n₁)
          (colon_found ip₂ ds₂ n₂) in
      let start : (ℕ → ℕ → Result (Start make_address opens)) = λ l r.
        check_chain make_address opens (build_processor_chain R C draws specs backwards) (
          open_acceptor make_address opens (make_address (take (length ip₁) t₁)) l
            (make_address (take (length ip₂) t₂)) r) in
      let ports =
        ap₂ (λ m n. with_ports make_address opens (m >>= λ l. n >>= λ r. ok (l, r)) start)
          (port_found ip₁ ds₁ n₁) (port_found ip₂ ds₂ n₂) in
      let checked =
        ap
          (λ m. check_chain make_address opens m (
            open_acceptor make_address opens (make_address (take (length ip₁) t₁)) p₁
              (make_address (take (length ip₂) t₂)) p₂))
          built in
      let addressed =
        ap₂ (λ x y. open_acceptor make_address opens x p₁ y p₂)
          (ap make_address (ip_found ip₁ ds₁) ∙ e₁) (ap make_address (ip_found ip₂ ds₂) ∙ e₂) in
      found
      ∙ ports
      ∙ checked
      ∙ addressed
      ∙ ap (λ o. if o then ok (listening (a, p₁) (b, p₂)) else throws system_error) opened

  -- What the parts of `run_tunnel` come to when it listens.
  opened_of :
      (x y : Option Address) (l r : ℕ) (listen remote : Address × ℕ)
      → open_acceptor make_address opens x l y r ≡ ok (listening listen remote)
      → (listen.1 ≡ l) × ((remote.1 ≡ r) × (opens listen ≡ true))
  unfolding open_acceptor
  opened_of (some a) (some b) l r listen remote e = elim (Bool-cases (opens (a, l))) [
    | inl opened ↦
        let same : ok (listening (a, l) (b, r)) ≡ ok (listening listen remote) = rw opened at e in
        let here : (a, l) ≡ listen = cc in
        let there : (b, r) ≡ remote = cc in
        (
          sym (ap (λ p. p.1) here),
          (sym (ap (λ p. p.1) there), subst (λ p. opens p ≡ true) here opened),
        )
    | inr shut ↦ absurd (cc (rw shut at e))
  ]
  opened_of none y l r listen remote e = absurd (cc)
  opened_of (some a) none l r listen remote e = absurd (cc)

  checked_of :
      {A : Type 0} (built : Result (Option A)) (next : Result (Start make_address opens))
      (listen remote : Address × ℕ)
      → check_chain make_address opens built next ≡ ok (listening listen remote)
      → ((c : A) × (built ≡ ok (some c))) × (next ≡ ok (listening listen remote))
  unfolding check_chain
  checked_of (ok (some c)) next listen remote e = ((c, refl), e)
  checked_of (ok none) next listen remote e = absurd (cc)
  checked_of (throws x) next listen remote e = absurd (cc)
  checked_of diverges next listen remote e = absurd (cc)

  ports_of :
      (m : Result (ℕ × ℕ)) (next : ℕ → ℕ → Result (Start make_address opens))
      (listen remote : Address × ℕ)
      → with_ports make_address opens m next ≡ ok (listening listen remote)
      → (l : ℕ) × (r : ℕ) × (m ≡ ok (l, r)) × (next l r ≡ ok (listening listen remote))
  unfolding with_ports
  ports_of (ok (l, r)) next listen remote e = (l, r, refl, e)
  ports_of (throws x) next listen remote e = absurd (cc)
  ports_of diverges next listen remote e = absurd (cc)

  port_bound : (s : ByteVector) (p : ℕ) → port_of s ≡ ok p → p < 2 ^ 16
  unfolding port_of
  port_bound s p e =
      let (n, read, cut) = >>=-eq-ok (stoull s) _ e in
      let value : n % 2 ^ 16 ≡ p = cc in omega (arith, value)

  -- A tunnel that listens has ports of 16 bits, an acceptor that could be opened, and processors that
  -- can be built from the same specifications.
  abbrev pub IsChecked : List ByteVector → Bool → Address × ℕ → Address × ℕ → Type 0
  IsChecked specs backwards listen remote =
      (listen.1 < 2 ^ 16)
      × ((remote.1 < 2 ^ 16)
          × ((opens listen ≡ true)
              × ((c : ProcessorChain R C) × (build_processor_chain R C draws specs backwards
                    ≡ ok (some c)))))

  start-IsChecked :
      (text₁ text₂ : ByteVector) (specs : List ByteVector) (backwards : Bool) (c₁ c₂ : Option ℕ)
      (listen remote : Address × ℕ)
      → start_at make_address opens R C draws text₁ text₂ specs backwards c₁ c₂
        ≡ ok (listening listen remote)
      → IsChecked specs backwards listen remote
  unfolding start_at
  start-IsChecked text₁ text₂ specs backwards (some c₁) (some c₂) listen remote e =
      let (l, r, ports, e₁) = ports_of _ _ listen remote e in
      let (built, e₂) =
        checked_of (build_processor_chain R C draws specs backwards) _ listen remote e₁ in
      let (at_l, at_rest) = opened_of _ _ l r listen remote e₂ in
      let (at_r, opened) = at_rest in
      let (l', read₁, e₃) = >>=-eq-ok (port_of (drop (suc c₁) text₁)) _ ports in
      let (r', read₂, e₄) = >>=-eq-ok (port_of (drop (suc c₂) text₂)) _ e₃ in
      let same = ok_inj e₄ in
      let below₁ = port_bound (drop (suc c₁) text₁) l' read₁ in
      let below₂ = port_bound (drop (suc c₂) text₂) r' read₂ in
      (omega (arith, below₁, same.0, at_l), (omega (arith, below₂, same.1, at_r), (opened, built)))
  start-IsChecked text₁ text₂ specs backwards (some c₁) none listen remote e = absurd (cc)
  start-IsChecked text₁ text₂ specs backwards none c₂ listen remote e = absurd (cc)

  -- When `run_tunnel` gets to listen, both ports have 16 bits, the acceptor could be opened, and the
  -- processors can be built.
  pub listening-IsChecked :
      (text₁ text₂ : ByteVector) (specs : List ByteVector) (backwards : Bool)
      (listen remote : Address × ℕ)
      → run_tunnel make_address opens R C draws text₁ text₂ specs backwards
        ≡ ok (listening listen remote)
      → IsChecked specs backwards listen remote
  unfolding run_tunnel
  listening-IsChecked text₁ text₂ specs backwards listen remote e =
      start-IsChecked text₁ text₂ specs backwards (rfind b':' text₁) (rfind b':' text₂) listen
        remote e
