-- ===== src/Jfs/Watcher/Layout.antt =====
-- The buffer that `send` of jfsnotify/backend_jfs.go fills, and its fields of 255 bytes.
use mathlib.Core.Path.{ap₂}
use fs_lib.Prelude.{
  ℕ, zero, suc, ◌+◌, ◌-◌, ◌*◌, ◌≤◌, List, [], ◌∷◌, ◌++◌, ◌≡◌, refl, sym, ap, ◌∙◌, arith, Bytes,
  length, take, drop, replicate, length-append, length-replicate, take-append, drop-append,
  drop-drop, take-all, append_assoc,
}
use fs_lib.Wire.Codec.{copy, zeros, field, fields, field-eq, length-field, drop-replicate}
use fs_lib.Jfs.Watcher.{copy_at, fill, layout}

zeros-append : (n m : ℕ) → zeros (n + m) ≡ zeros n ++ zeros m
unfolding replicate
zeros-append zero m = ap zeros {x = 0 + m} {y = m} (omega arith)
zeros-append (suc n) m =
    ap zeros {x = suc n + m} {y = suc (n + m)} (omega arith) ∙ ap (◌∷◌ 0) (zeros-append n m)

length-zeros : (n : ℕ) → length (zeros n) ≡ n
length-zeros n = length-replicate {A = ℕ} n 0

take-zeros : (n m : ℕ) → take n (zeros (n + m)) ≡ zeros n
take-zeros n m = ap (take n) (zeros-append n m) ∙ take-append n _ _ (length-zeros n)

-- copy of a short text into a longer buffer of zeros
copy-zeros : (n m : ℕ) (s : Bytes) → length s ≤ n → copy (zeros (n + m)) s ≡ field n s ++ zeros m
unfolding copy
copy-zeros n m s h =
    ap₂ {A = Bytes} {B = Bytes} (λ a b. a ++ b)
      (take-all (length (zeros (n + m))) s (omega (arith, length-zeros (n + m))))
      (drop-replicate (n + m) (length s))
    ∙ ap (λ z. s ++ z)
        (ap zeros {x = n + m - length s} {y = n - length s + m} (omega arith)
          ∙ zeros-append (n - length s) m)
    ∙ sym (append_assoc s (zeros (n - length s)) (zeros m))
    ∙ ap (λ f. f ++ zeros m)
        (ap (λ t. t ++ zeros (n - length s)) (sym (take-all n s h)) ∙ sym (field-eq n s))

-- One round of the loop, at the end of what is filled.
copy_at-zeros :
    (filled : Bytes) (offset m : ℕ) (s : Bytes)
    → length filled ≡ offset
    → copy_at offset s (filled ++ zeros (255 + m)) ≡ filled ++ (field 255 s ++ zeros m)
unfolding copy_at field copy
copy_at-zeros filled offset m s h =
    let behind = drop-append offset filled (zeros (255 + m)) h in
    λ i.
      take-append offset filled (zeros (255 + m)) h i
      ++ (copy ((ap (take 255) behind ∙ take-zeros 255 m) i) s
          ++ (sym (drop-drop 255 offset (filled ++ zeros (255 + m)))
                ∙ ap (drop 255) behind
                ∙ drop-replicate (255 + m) 255
                ∙ ap zeros {x = 255 + m - 255} {y = m} (omega arith))
              i)

fill-zeros :
    (ss : List Bytes) (filled : Bytes) (offset : ℕ)
    → length filled ≡ offset
    → fill offset ss (filled ++ zeros (length ss * 255)) ≡ filled ++ fields ss
unfolding fill
fill-zeros [] filled offset h = ap (λ z. filled ++ z) (unfold replicate in refl)
fill-zeros (s ∷ ss) filled offset h =
    ap (λ (n : ℕ). fill (offset + 255) ss (copy_at offset s (filled ++ zeros n)))
      {x = suc (length ss) * 255} {y = 255 + length ss * 255} (omega arith)
    ∙ ap (fill (offset + 255) ss)
        (copy_at-zeros filled offset (length ss * 255) s h ∙ sym (append_assoc filled _ _))
    ∙ fill-zeros ss (filled ++ field 255 s) (offset + 255)
        (omega (arith, length-append filled (field 255 s), length-field 255 s))
    ∙ append_assoc filled (field 255 s) (fields ss)

-- If the sender's name has at most 255 bytes, the buffer is that name and the watches as fields.
pub layout-fields :
    (sender : Bytes) (watches : List Bytes)
    → length sender ≤ 255
    → layout sender watches ≡ fields (sender ∷ watches)
unfolding layout
layout-fields sender watches h =
    ap (λ (n : ℕ). fill 255 watches (copy (zeros n) sender)) {x = (length watches + 1) * 255}
      {y = 255 + length watches * 255} (omega arith)
    ∙ ap (fill 255 watches) (copy-zeros 255 (length watches * 255) sender h)
    ∙ fill-zeros watches (field 255 sender) 255 (length-field 255 sender)
