-- ===== src/Files/Atomic.antt =====
-- WriteFileAtomic leaves the old file or the whole new one, whatever fails and wherever it crashes.
use stackly.Base.{
  ap, Bool, ℕ, ◌≡◌, refl, ◌∙◌, true, false, none, some, List, [], ◌∷◌, ◌++◌, Bytes, bytes_eq,
  bytes_eq_refl, bytes_eq_iff, arith, sym, take, All, All-append, if◌then◌else◌, ◌⊎◌, inl, inr,
  Bool-cases,
}
use stackly.Base.Map.{get, put, remove, get-put, get-remove}
use stackly.Files.{Disk, Faults, Written, partly, clean, write_file_atomic}

-- The path has its old content, or the whole new one.
abbrev pub OldOrNew : Bytes → Bytes → Disk → Disk → Type 0
OldOrNew path content old d = (get path d ≡ get path old) ⊎ (get path d ≡ some content)

-- What holds after the call: the trace is safe, the path has the new content if there is no error and
-- the old one otherwise, every other path has what it had, and the temporary file is gone, unless its
-- removal after an error fails as well.
pub record IsAtomic (stays : Bool) (tmp path content : Bytes) (d : Disk) (w : Written)
    : Type 0 where
  pub crash : All (OldOrNew path content d) w.trace
  pub end : get path w.final ≡ (if w.ok then some content else get path d)
  pub cleaned : (get tmp w.final ≡ get tmp d) ⊎ ((stays ≡ true) × (w.ok ≡ false))
  pub others :
      (j : Bytes) → bytes_eq path j ≡ false → bytes_eq tmp j ≡ false → get j w.final ≡ get j d

other_way : (a b : Bytes) → bytes_eq b a ≡ false → bytes_eq a b ≡ false
other_way a b h = ground (arith, h, bytes_eq_iff a b, bytes_eq_iff b a)

module _ (tmp path : Bytes) (d : Disk) (apart : bytes_eq tmp path ≡ false) where
  kept : (c content : Bytes) → OldOrNew path content d (put tmp c d)
  kept c content = inl (get-put tmp path c d ∙ rw apart refl)

  partly-All :
      (content : Bytes) (ns : List ℕ) → All (OldOrNew path content d) (partly tmp content d ns)
  unfolding partly
  partly-All content [] = tt
  partly-All content (n ∷ ns) = (kept (take n content) content, partly-All content ns)

  -- Another path than the temporary one, after the temporary file has come and gone.
  get-cleaned : (j c : Bytes) → bytes_eq tmp j ≡ false → get j (remove tmp (put tmp c d)) ≡ get j d
  get-cleaned j c h = get-remove tmp j (put tmp c d) ∙ rw h (get-put tmp j c d ∙ rw h refl)

  module _ (fresh : get tmp d ≡ none) where
    -- A call that ends in an error after the temporary file was made.
    aborted :
        (stays : Bool) (content c : Bytes) (trace : List Disk)
        → All (OldOrNew path content d) trace
        → IsAtomic stays tmp path content d
            (record { trace = trace; final = clean stays tmp (put tmp c d); ok = false })
    unfolding clean
    aborted true content c trace h = record {
      crash = h;
      end = get-put tmp path c d ∙ rw apart refl;
      cleaned = inr (refl, refl);
      others = λ j _ k. get-put tmp j c d ∙ rw k refl;
    }
    aborted false content c trace h = record {
      crash = h;
      end = get-cleaned path c apart;
      cleaned = inl (get-remove tmp tmp (put tmp c d) ∙ rw (bytes_eq_refl tmp) (sym fresh));
      others = λ j _ k. get-cleaned j c k;
    }

    abbrev renamed : Bytes → Disk
    renamed content = put path content (remove tmp (put tmp content d))

    done :
        (stays : Bool) (content : Bytes) (trace : List Disk)
        → All (OldOrNew path content d) trace
        → IsAtomic stays tmp path content d
            (record { trace = trace; final = clean stays tmp (renamed content); ok = true })
    unfolding clean
    done stays content trace h = record {
      crash = h;
      end = gone path ∙ new;
      cleaned = inl (gone tmp ∙ tmp_free);
      others = λ j p t.
          gone j
          ∙ (get-put path j content (remove tmp (put tmp content d))
              ∙ rw p (get-cleaned j content t));
    }
      where
        new : get path (renamed content) ≡ some content
        new =
            get-put path path content (remove tmp (put tmp content d))
            ∙ rw (bytes_eq_refl path) refl

        tmp_free : get tmp (renamed content) ≡ get tmp d
        tmp_free =
            get-put path tmp content (remove tmp (put tmp content d))
            ∙ rw (other_way path tmp apart)
                (get-remove tmp tmp (put tmp content d) ∙ rw (bytes_eq_refl tmp) (sym fresh))

        -- The temporary file is not there any more, so that its removal changes nothing.
        gone : (j : Bytes) → get j (clean stays tmp (renamed content)) ≡ get j (renamed content)
        gone j = after stays
          where
            after : (b : Bool) → get j (clean b tmp (renamed content)) ≡ get j (renamed content)
            after true = refl
            after false = get-remove tmp j (renamed content) ∙ elim (Bool-cases (bytes_eq tmp j)) [
              | inl t ↦ rw t (
                  sym (tmp_free ∙ fresh)
                  ∙ ap (λ k. get k (renamed content)) ((bytes_eq_iff tmp j).0 t))
              | inr t ↦ rw t refl
            ]

    writing-All :
        (f : Faults) (content : Bytes) (last : List Disk)
        → All (OldOrNew path content d) last
        → All (OldOrNew path content d) ((put tmp [] d ∷ partly tmp content d f.cuts) ++ last)
    writing-All f content last h =
        All-append (OldOrNew path content d) (put tmp [] d ∷ partly tmp content d f.cuts) last
          (kept [] content, partly-All content f.cuts) h

    renamed-OldOrNew : (content : Bytes) → OldOrNew path content d (renamed content)
    renamed-OldOrNew content =
        inr (
          get-put path path content (remove tmp (put tmp content d)) ∙ rw (bytes_eq_refl path) refl)

    -- A temporary file with a new name, and not the target's: whatever fails, and wherever the program
    -- crashes, the target has its old content or the whole new one; without a crash it has the new one if
    -- there is no error and the old one otherwise, no other file changed, and the temporary file is gone
    -- unless the call ends in an error and its removal fails too.
    pub write_file_atomic-IsAtomic :
        (f : Faults) (content : Bytes)
        → IsAtomic f.remove tmp path content d (write_file_atomic f tmp path content d)
    unfolding write_file_atomic
    write_file_atomic-IsAtomic f content =
        let broken = take f.written content in
        elim (Bool-cases f.create) [
          | inl e ↦
              rw (e, write_file_atomic)
                (record { crash = tt; end = refl; cleaned = inl refl; others = λ j p t. refl })
          | inr e1 ↦ elim (Bool-cases f.write) [
            | inl e ↦
                rw (e1, e, write_file_atomic)
                  (aborted f.remove content broken _
                    (writing-All f content _ (kept broken content, tt)))
            | inr e2 ↦ elim (Bool-cases f.close) [
              | inl e ↦
                  rw (e1, e2, e, write_file_atomic)
                    (aborted f.remove content content _
                      (writing-All f content _ (kept content content, tt)))
              | inr e3 ↦ elim (Bool-cases f.rename) [
                | inl e ↦
                    rw (e1, e2, e3, e, write_file_atomic)
                      (aborted f.remove content content _
                        (writing-All f content _ (kept content content, tt)))
                | inr e4 ↦
                    rw (e1, e2, e3, e4, write_file_atomic)
                      (done f.remove content _ (
                        writing-All f content _
                          (kept content content, (renamed-OldOrNew content, tt))))
              ]
            ]
          ]
        ]
