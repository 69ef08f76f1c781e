-- ===== src/SharedMemory/Closing.antt =====
-- What the store of shared memory leaves behind when regions are closed.
use mathlib.Core.List.{append_assoc}
use vyx.Base.{
  ℕ, ◌≡◌, refl, ◌∙◌, arith, Bool, true, false, Option, none, some, is_some, [], ◌∷◌, ◌++◌, Text,
  Dict, lookup, insert, if◌then◌else◌, str_eq, lookup-insert, lookup-delete, str_eq_refl,
}
use vyx.SharedMemory.{
  Descriptor, Region, makes, truncates, maps, unmaps, removes, Store, ShmError, Answers, created,
  create, close, close_each, close_all, asking, stored, name_of,
}

close_each-lookup :
    (unmap : ℕ → Bool) (k : Text) (rs : Dict Region) (err : Option ShmError) (s : Store)
    → lookup k (close_each unmap rs err s).0.regions
      ≡ (if is_some (lookup k rs) then none else lookup k s.regions)
unfolding close_each lookup
close_each-lookup unmap k [] err s = refl
close_each-lookup unmap k ((path, r) ∷ rs) err s =
    close_each-lookup unmap k rs _ _ ∙ rw (lookup-delete path k s.regions) (ground arith)

-- After `CloseAll` no region is left, whether or not they could be unmapped.
pub close_all-lookup :
    (unmap : ℕ → Bool) (k : Text) (s : Store) → lookup k (close_all unmap s).0.regions ≡ none
unfolding close_all
close_all-lookup unmap k s = close_each-lookup unmap k s.regions none s ∙ gone (lookup k s.regions)
  where
    gone : (o : Option Region) → (if is_some o then none else o) ≡ none
    gone none = refl
    gone (some r) = refl

-- What closing a new region leaves.
pub record Closed (s : Store) (m : ℕ) (d : Descriptor) (r : Store × Option ShmError) : Type 0 where
  pub succeeds : r.1 ≡ none
  pub forgotten : lookup d.path r.0.regions ≡ none
  pub others : (k : Text) → str_eq d.path k ≡ false → lookup k r.0.regions ≡ lookup k s.regions
  pub calls :
      r.0.asked
      ≡ s.asked
        ++ makes d.path ∷ truncates d.path d.size ∷ maps d.path ∷ unmaps m ∷ removes d.path ∷ []

-- The store with the calls of `Create` and its region.
abbrev with_region : ℕ → Descriptor → Store → Store
with_region m d s =
    stored d.path m
      (asking (maps d.path ∷ []) (asking (makes d.path ∷ truncates d.path d.size ∷ []) s))

close_stored :
    (unmap : ℕ → Bool) (m : ℕ) (s : Store) (d : Descriptor)
    → unmap m ≡ true
    → Closed s m d (close unmap d.path (with_region m d s))
unfolding close
close_stored unmap m s d u =
    let region : Region = record { data_of = m; path = d.path } in
    let there : lookup d.path (insert d.path region s.regions) ≡ some region =
      lookup-insert d.path d.path region s.regions ∙ rw (str_eq_refl d.path) refl in
    rw (there, u)
      (record {
        succeeds = refl;
        forgotten =
            lookup-delete d.path d.path (insert d.path region s.regions)
            ∙ rw (str_eq_refl d.path) refl;
        others = λ k n.
            lookup-delete d.path k (insert d.path region s.regions)
            ∙ rw (n, lookup-insert d.path k region s.regions, n) refl;
        calls = rw (append_assoc s.asked, append_assoc s.asked) refl;
      })

-- Closing a region that was just created unmaps its mapping and removes its file, and leaves every
-- other region as it was, where the system can unmap it.
pub close-create :
    (join : Text → Text) (os : Answers) (unmap : ℕ → Bool) (worker_id request_id : Text)
    (size m : ℕ) (s : Store)
    → os.mkdir ≡ true
    → os.file ≡ true
    → os.truncate ≡ true
    → os.mmap ≡ some m
    → unmap m ≡ true
    → (r : Region) × (d : Descriptor) × ((create join os worker_id request_id size s).1
        ≡ created r d)
      × Closed s m d (close unmap d.path (create join os worker_id request_id size s).0)
unfolding create close
close-create join os unmap worker_id request_id size m s a b c e u =
    let name = name_of worker_id request_id in
    rw (a, b, c, e)
      (_, _, refl, close_stored unmap m s (record { path = join name; size = size; id = name }) u)
