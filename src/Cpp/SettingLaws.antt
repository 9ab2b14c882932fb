-- ===== src/Cpp/SettingLaws.antt =====
-- Objects of the classes with one value, from their construction to their destruction.
use whad_lib.Prelude.{ℕ, ◌≡◌, ◌==◌, refl, ap, ◌∙◌, true, Bool-cases, inl, inr, none, some, success}
use whad_lib.Protocol.Message.{Message, unset}
use whad_lib.Cpp.{NanoPbMsg, Heap, write, calloc, free, new, wrap, destroy}
use whad_lib.Cpp.Board.{Outcome, returned, store, or_old}
use whad_lib.Cpp.Setting.{
  Calls, Setting, SettingClass, create, packed, get_raw, is_error, unpacked, parse_at, parse,
  parse_borrowed, class_of, borrowing, not_unpacking, reading, read_member,
}
use whad_lib.Cpp.Lifetime.{eq_self, target_live, eq_true}

-- What the first C function of a class writes for `v`, the second reads as `w` where the memory of the
-- members held `old` before the constructors ran.
unfoldable pub Agree : {A : Type 0} → Calls A → A → A → A → Type 0
Agree {A} c v old w =
    (made : Message) × ((c.pack (some unset) v).1 ≡ some made)
    × (c.unpack (some made) (some (c.prepare old)) ≡ (success, some w))

-- What an object of a class goes through: created with the value `v` and packed; its message parsed by
-- the class, which makes an object with the value `w`; and both objects destroyed.
abbrev pub RoundTrip : {A : Type 0} → A → Heap → A → A → SettingClass A → Type 0
RoundTrip v h old w c =
    (h2 : Heap) × (h3 : Heap) × (c.get_raw (c.create true v h).0 (c.create true v h).1
      ≡ returned (some h.next) h2)
    × (c.parse (wrap (some h.next)) old h2
        ≡ returned (record { base = wrap (some h.next); value = w }) h2)
    × (destroy (wrap (some h.next)) h2 ≡ some h2)
    × (destroy (c.create true v h).0.base h2 ≡ some h3)
    × ((b : ℕ) → h3.cells b ≡ h.cells b)

module _ {A : Type 0} (c : Calls A) (v old w : A) (h : Heap) where
  -- A wrapper that borrows a live message is parsed.
  parse_reads :
      (k : Heap) (a : ℕ) (made : Message)
      → k.cells a ≡ some made
      → c.unpack (some made) (some (c.prepare old)) ≡ (success, some w)
      → parse c (wrap (some a)) old k ≡ returned (record { base = wrap (some a); value = w }) k
  unfolding parse parse_at unpacked is_error or_old wrap
  parse_reads k a made live reads =
      ap (parse_at c (record { base = wrap (some a); value = c.prepare old }) k)
        (target_live (some a) k a made refl live)
      ∙ ap (unpacked c (record { base = wrap (some a); value = c.prepare old }) k) reads

  get_raw-create :
      get_raw c (create c true v h).0 (create c true v h).1
      ≡ returned (some h.next) (write h.next (c.pack (some unset) v).1 (create c true v h).1)
  unfolding create new calloc get_raw packed store
  get_raw-create =
      ap (packed c (create c true v h).0 (create c true v h).1)
        (target_live (some h.next) (create c true v h).1 h.next unset refl (simp (eq_self h.next)))

  -- A class with these calls whose second constructor makes an object of the message that was written.
  made-RoundTrip :
      (made : Message) (parse_message : NanoPbMsg → A → Heap → Outcome (Setting A))
      → h.cells h.next ≡ none
      → (c.pack (some unset) v).1 ≡ some made
      → ((k : Heap)
          → k.cells h.next ≡ some made
          → parse_message (wrap (some h.next)) old k
            ≡ returned (record { base = wrap (some h.next); value = w }) k)
      → RoundTrip v h old w
          (record { create = create c; parse = parse_message; get_raw = get_raw c })
  unfolding create new calloc wrap destroy free write
  made-RoundTrip made parse_message free_next writes reads = (
    h2,
    write h.next none h2,
    get_raw-create ∙ ap (λ m. returned (some h.next) (write h.next m (create c true v h).1)) writes,
    reads h2 (simp (eq_self h.next)),
    refl,
    simp (eq_self h.next),
    same,
  )
    where
      h2 : Heap
      h2 = write h.next (some made) (create c true v h).1

      same : (b : ℕ) → (write h.next none h2).cells b ≡ h.cells b
      same b = elim (Bool-cases (b == h.next)) [
        | inl here ↦ simp (here, ap h.cells (eq_true b h.next here) ∙ free_next)
        | inr away ↦ simp (away)
      ]

  pub object-RoundTrip : h.cells h.next ≡ none → Agree c v old w → RoundTrip v h old w (class_of c)
  unfolding Agree
  object-RoundTrip free_next (made, writes, reads) =
      made-RoundTrip made (parse c) free_next writes
        (λ k live. parse_reads k h.next made live reads)

  pub borrowing-RoundTrip :
      h.cells h.next ≡ none → Agree c v old w → RoundTrip v h old w (borrowing c)
  unfolding parse_borrowed wrap
  borrowing-RoundTrip = object-RoundTrip

  pub reading-RoundTrip :
      (read : Message → A) (made : Message)
      → h.cells h.next ≡ none
      → (c.pack (some unset) v).1 ≡ some made
      → read made ≡ w
      → RoundTrip v h old w (reading c read)
  unfolding read_member wrap
  reading-RoundTrip read made free_next writes reads =
      made-RoundTrip made (reading c read).parse free_next writes (λ k live.
        ap (read_member read (wrap (some h.next)) k)
          (target_live (some h.next) k h.next made refl live)
        ∙ ap (λ x. returned (record { base = wrap (some h.next); value = x }) k) reads)

-- A class whose second constructor leaves the message alone.
pub not_unpacking-RoundTrip :
    {A : Type 0} (c : Calls A) (v old : A) (h : Heap) (made : Message)
    → h.cells h.next ≡ none
    → (c.pack (some unset) v).1 ≡ some made
    → RoundTrip v h old (c.prepare old) (not_unpacking c)
not_unpacking-RoundTrip c v old h made free_next writes =
    made-RoundTrip c v old (c.prepare old) h made (not_unpacking c).parse free_next writes
      (λ k live. refl)
