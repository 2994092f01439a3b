-- ===== src/Symbols/Roundtrip.antt =====
-- Translating a canonical name to a venue's ticker and back.
use Prim.Native.String.{String}
use crypto_data_aggregator.Prelude.{
  ◌≡◌, refl, sym, ap, ◌∙◌, subst, inl, inr, some, List, [], ◌∷◌, All, In, here, there, All-of_In,
  Bool-cases, Option-cases, arith,
}
use crypto_data_aggregator.Prelude.Order.{text_order, pair_order, eq, eq→≡, eq_refl}
use crypto_data_aggregator.Prelude.Dict.{get, put, get-put, All-get}
use crypto_data_aggregator.Symbols.{
  SymbolMap, Index, native_for, natives_of, add_natives, indexed, add_entry, add_entries,
  build_index, to_native, to_canonical,
}

abbrev pub Entries : Type 0
Entries = List (List (String × String))

-- Some entry of the file gives `canonical` the ticker `native` at `venue`.
abbrev pub Lists : Entries → String → String → String → Type 0
Lists symbols canonical venue native =
    (entry : List (String × String)) × In entry symbols
    × (get "canonical" entry ≡ some canonical)
    × In (venue, native) (natives_of entry)

In-of_get : (k v : String) (d : List (String × String)) → get k d ≡ some v → In (k, v) d
In-of_get k v d e = All-get (λ p. In p d) k v d e (All-of_In (λ p. In p d) d (λ a m. m))

module _ (upper : String → String) where
  -- No venue's ticker stands for two canonical names.
  abbrev pub IsUnambiguous : Entries → Type 0
  IsUnambiguous symbols =
      (c d venue n m : String)
      → Lists symbols c venue n
      → Lists symbols d venue m
      → upper n ≡ upper m
      → c ≡ d

  -- An entry of the reverse table stays, if whatever overwrites it says the same.
  add_natives_keep :
      (k : String × String) (c d : String) (natives : List (String × String))
      (reverse : List ((String × String) × String))
      → ((venue native : String) → In (venue, native) natives → (venue, upper native) ≡ k → d ≡ c)
      → get k reverse ≡ some c
      → get k (add_natives upper d natives reverse) ≡ some c
  unfolding add_natives
  add_natives_keep k c d [] reverse same e = e
  add_natives_keep k c d ((venue, native) ∷ natives) reverse same e =
      add_natives_keep k c d natives (put (venue, upper native) d reverse)
        (λ v n m. same v n (there m))
        (get-put (venue, upper native) k d reverse
          ∙ (elim (Bool-cases (eq (venue, upper native) k)) [
            | inl t ↦
                rw t (ap some (same venue native (here refl) (eq→≡ (venue, upper native) k t)))
            | inr t ↦ rw t e
          ]))

  add_natives_own :
      (c venue native : String) (natives : List (String × String))
      (reverse : List ((String × String) × String))
      → In (venue, native) natives
      → get (venue, upper native) (add_natives upper c natives reverse) ≡ some c
  unfolding add_natives
  add_natives_own c venue native [] reverse m = elim m [ ]
  add_natives_own c venue native ((v, n) ∷ natives) reverse (here e) =
      let k : String × String = (venue, upper native) in
      let same : (v, upper n) ≡ k = ap (λ (p : String × String). (p.0, upper p.1)) (sym e) in
      add_natives_keep k c c natives (put (v, upper n) c reverse) (λ v' n' m q. refl)
        (get-put (v, upper n) k c reverse ∙ rw (same, eq_refl k) refl)
  add_natives_own c venue native ((v, n) ∷ natives) reverse (there m) =
      add_natives_own c venue native natives (put (v, upper n) c reverse) m

  -- What the index built so far knows stands in the file, and its way back is there.
  abbrev IsIndexOf : Entries → Index → Type 0
  IsIndexOf symbols index =
      (c venue native : String) (sym : SymbolMap)
      → get c index.by_canonical ≡ some sym
      → get venue sym.venue_native ≡ some native
      → Lists symbols c venue native × (get (venue, upper native) index.reverse ≡ some c)

  module _ (symbols : Entries) (clear : IsUnambiguous symbols) where
    indexed-IsIndexOf :
        (d : String) (entry : List (String × String)) (index : Index)
        → In entry symbols
        → get "canonical" entry ≡ some d
        → IsIndexOf symbols index
        → IsIndexOf symbols (indexed upper d (natives_of entry) index)
    unfolding indexed
    indexed-IsIndexOf d entry index m found h c venue native sm p q =
        let natives = natives_of entry in
        let added : SymbolMap = record { canonical = d; venue_native = natives } in
        let at_c = sym (get-put d c added index.by_canonical) ∙ p in
        elim (Bool-cases (eq d c)) [
          | inl t ↦
              let new : added ≡ sm = cc (rw t at at_c) in
              let listed =
                In-of_get venue native natives (ap (λ s. get venue s.venue_native) new ∙ q) in
              subst
                (λ x.
                  Lists symbols x venue native
                  × (get (venue, upper native) (add_natives upper d natives index.reverse)
                      ≡ some x))
                (eq→≡ d c t)
                (
                  (entry, m, found, listed),
                  add_natives_own d venue native natives index.reverse listed,
                )
          | inr t ↦
              let (old, back) = h c venue native sm (rw t at at_c) q in
              (
                old,
                add_natives_keep (venue, upper native) c d natives index.reverse
                    (λ v n k same.
                      clear d c v n native (entry, m, found, k)
                        (subst (λ x. Lists symbols c x native) (sym (ap (λ p. p.0) same)) old)
                        (ap (λ p. p.1) same))
                    back,
              )
        ]

    add_entries-IsIndexOf :
        (entries : Entries) (index last : Index)
        → All (λ entry. In entry symbols) entries
        → IsIndexOf symbols index
        → add_entries upper entries index ≡ some last
        → IsIndexOf symbols last
    unfolding add_entries add_entry
    add_entries-IsIndexOf [] index last m h e =
        let same : index ≡ last = cc e in subst (IsIndexOf symbols) same h
    add_entries-IsIndexOf (entry ∷ entries) index last m h e =
        elim (Option-cases (get "canonical" entry)) [
          | inl none_found ↦ absurd (ground (arith, rw none_found at e))
          | inr (d, found) ↦
              add_entries-IsIndexOf entries (indexed upper d (natives_of entry) index) last m.1
                (indexed-IsIndexOf d entry index m.0 found h) (rw found at e)
        ]

  -- Where the index gives a canonical name a venue's ticker, that ticker leads back to the name at that
  -- venue, if no venue's ticker stands for two names in the file.
  pub to_canonical-to_native :
      (symbols : Entries) (index : Index) (canonical venue native : String)
      → IsUnambiguous symbols
      → build_index upper symbols ≡ some index
      → to_native index canonical venue ≡ some native
      → to_canonical upper index native venue ≡ some canonical
  unfolding build_index to_native to_canonical native_for
  to_canonical-to_native symbols index canonical venue native clear built e =
      elim (Option-cases (get canonical index.by_canonical)) [
        | inl missing ↦ absurd (ground (arith, rw missing at e))
        | inr (sm, found) ↦
            (add_entries-IsIndexOf symbols clear symbols
              (record { by_canonical = []; reverse = [] }) index
              (All-of_In (λ entry. In entry symbols) symbols (λ a m. m))
              (unfold get in λ c v n s p q. absurd (ground (arith, p))) built canonical venue native
              sm found (rw found at e)).1
      ]
