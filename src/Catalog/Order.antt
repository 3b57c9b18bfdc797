-- ===== src/Catalog/Order.antt =====
-- The order of a provider's protocols, `validate_protocols` in src/domain/catalog/validation.rs. That
-- every protocol has a place in the order is what its `expect` relies on.
use prelay_server.Base.{
  ℕ, ◌<◌, ◌≡◌, ◌↔◌, String, Option, none, some, List, [], ◌∷◌, Bool, true, false, leb, arith,
  is_empty, map, All,
}
use prelay_server.Result.{ok, err, refuse_if, ◌>>◌}
use prelay_server.Catalog.{ProviderProtocol, ProviderCatalogError, catalog_error, panicked}
use prelay_server.Catalog.Models.{is_some_and, Checked}
use prelay_server.Catalog.Entries.{position, validate_order, validate_protocols}

unfoldable pub Ascending : List ℕ → Type 0
Ascending [] = Unit
Ascending (n ∷ ns) = All (λ m. n < m) ns × Ascending ns

-- A check that ends with an answer, and does not panic.
abbrev pub Answers : Checked → Type 0
Answers (ok accepted) = Unit
Answers (err (catalog_error error)) = Unit
Answers (err (panicked message)) = ⊥

refuse_if-Answers :
    (test : Bool) (error : ProviderCatalogError) (rest : Checked)
    → Answers rest
    → Answers (refuse_if test (catalog_error error) >> rest)
refuse_if-Answers true error rest h = tt
refuse_if-Answers false error rest h = h

Above : Option ℕ → List ℕ → Type 0
Above none ns = Unit
Above (some n) ns = All (λ m. n < m) ns

All-lt : (n m : ℕ) (ns : List ℕ) → n < m → All (λ k. m < k) ns → All (λ k. n < k) ns
All-lt n m [] h all = tt
All-lt n m (k ∷ ns) h all = (omega arith, All-lt n m ns h all.1)

Above-cons :
    (previous : Option ℕ) (n : ℕ) (ns : List ℕ)
    → ((is_some_and previous (leb n) ≡ false) × (Above (some n) ns × Ascending ns))
      ↔ (Above previous (n ∷ ns) × Ascending (n ∷ ns))
unfolding Above Ascending
Above-cons none n ns = ground arith
Above-cons (some m) n ns = ground (arith, All-lt m n ns)

module _ (ordered : List ProviderProtocol) (rank : ProviderProtocol → ℕ)
    (ranked : (p : ProviderProtocol) → position ordered p ≡ some (rank p)) where
  validate_order_lem :
      (id : String) (previous : Option ℕ) (protocols : List ProviderProtocol)
      → (validate_order ordered id previous protocols ≡ ok tt)
        ↔ (Above previous (map rank protocols) × Ascending (map rank protocols))
  unfolding validate_order
  validate_order_lem id none [] = unfold Above Ascending in ground arith
  validate_order_lem id (some n) [] = unfold Above Ascending in ground arith
  validate_order_lem id previous (p ∷ ps) =
      let later = validate_order_lem id (some (rank p)) ps in
      ground (arith, ranked p, later, Above-cons previous (rank p) (map rank ps))

  validate_order-Answers :
      (id : String) (previous : Option ℕ) (protocols : List ProviderProtocol)
      → Answers (validate_order ordered id previous protocols)
  unfolding validate_order
  validate_order-Answers id previous [] = tt
  validate_order-Answers id previous (p ∷ ps) = rw (ranked p) (
      refuse_if-Answers (is_some_and previous (leb (rank p))) _
        (validate_order ordered id (some (rank p)) ps)
        (validate_order-Answers id (some (rank p)) ps))

  -- If every protocol has a place in the fixed order: the protocols of a provider are accepted exactly
  -- when there is one and they stand in that order, each once; and they are accepted or refused with
  -- an error, so that the `expect` on a protocol's place does not panic.
  pub validate_protocols-Ascending :
      (id : String) (protocols : List ProviderProtocol)
      → ((validate_protocols ordered id protocols ≡ ok tt)
          ↔ ((is_empty protocols ≡ false) × Ascending (map rank protocols)))
        × Answers (validate_protocols ordered id protocols)
  unfolding validate_protocols
  validate_protocols-Ascending id [] = (ground arith, tt)
  validate_protocols-Ascending id (p ∷ ps) = (
    unfold Above in ground (arith, validate_order_lem id none (p ∷ ps)),
    validate_order-Answers id none (p ∷ ps),
  )
