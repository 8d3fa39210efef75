-- ===== src/Client/Get/Save.antt =====
-- The end of `get` in skeleton/client.c.
use native.Mathlib.Nat.{le_refl}
use cpe_464_program.Base.{
  ℕ, ◌≡◌, refl, ◌∙◌, ap, true, none, some, Option, Option-cases, List, [], ◌∷◌, ◌++◌, length, take,
  take-all, ◌⊎◌, Bool-cases, inl, inr,
}
use cpe_464_program.Transfer.Receiver.{Receiver, sr_receiver_get_file}
use cpe_464_program.Client.{World}
use cpe_464_program.Client.Get.{same_bytes, save}
use cpe_464_program.Client.Dialogue.{Location}
use cpe_464_program.Client.Get.Opening.{same_bytes_refl, same_bytes_sound}

-- `save`, whatever the receiver holds: either it saves nothing, or the digest of the receiver's buffer, cut
-- to the file's size, is the one that the server gave, the result is 0, and what it saves under the name that
-- the server gave is as much of that from its start as `fwrite` writes.
pub save_verifies :
    (sha256 : List ℕ → List ℕ) (writable : List ℕ → Option (ℕ → ℕ)) (loc : Location) (r : Receiver)
    (w : World)
    → ((save sha256 writable loc r w).1 ≡ w)
      ⊎ ((fwrite : ℕ → ℕ) × (writable loc.filename ≡ some fwrite)
          × (sha256 (take (sr_receiver_get_file r).1 (sr_receiver_get_file r).0) ≡ loc.hash)
          × (save sha256 writable loc r w ≡ (
            some tt,
            record w {
              saved =
                  w.saved
                  ++ (record {
                    name = loc.filename;
                    contents =
                        take
                          (fwrite (sr_receiver_get_file r).1)
                          (take (sr_receiver_get_file r).1 (sr_receiver_get_file r).0);
                  }
                      ∷ []);
            },
          )))
unfolding save
save_verifies sha256 writable loc r w =
    let contents = take (sr_receiver_get_file r).1 (sr_receiver_get_file r).0 in
    elim (Bool-cases (same_bytes (sha256 contents) loc.hash)) [
      | inr differs ↦ rw (differs, save) (inl refl)
      | inl same ↦ elim (Option-cases (writable loc.filename)) [
        | inl shut ↦ rw (same, save, shut) (inl refl)
        | inr (fwrite, opened) ↦ inr (
          fwrite,
          opened,
          same_bytes_sound (sha256 contents) loc.hash same,
          rw (same, save, opened) refl,
        )
      ]
    ]

-- A complete receiver of a file whose digest is the one that the server gave, under a name that can be
-- opened: `save` returns 0 and saves as much of the file as `fwrite` writes.
pub save_complete :
    (sha256 : List ℕ → List ℕ) (writable : List ℕ → Option (ℕ → ℕ)) (loc : Location) (r : Receiver)
    (w : World) (file : List ℕ) (fwrite : ℕ → ℕ)
    → sr_receiver_get_file r ≡ (file, length file)
    → sha256 file ≡ loc.hash
    → writable loc.filename ≡ some fwrite
    → save sha256 writable loc r w ≡ (
      some tt,
      record w {
        saved =
            w.saved
            ++ (record { name = loc.filename; contents = take (fwrite (length file)) file } ∷ []);
      },
    )
unfolding save
save_complete sha256 writable loc r w file fwrite received digest opened =
    let contents = take (sr_receiver_get_file r).1 (sr_receiver_get_file r).0 in
    let whole : contents ≡ file =
      ap (λ p. take p.1 p.0) received ∙ take-all (length file) file (le_refl _) in
    let same : same_bytes (sha256 contents) loc.hash ≡ true =
      ap (λ c. same_bytes (sha256 c) loc.hash) whole
      ∙ ap (λ h. same_bytes h loc.hash) digest
      ∙ same_bytes_refl loc.hash in
    let written : take (fwrite (sr_receiver_get_file r).1) contents
        ≡ take (fwrite (length file)) file =
      ap (λ c. take (fwrite (sr_receiver_get_file r).1) c) whole
      ∙ ap (λ p. take (fwrite p.1) file) received in
    rw (same, save, opened)
      (ap
        (λ c. (
          some tt,
          record w { saved = w.saved ++ (record { name = loc.filename; contents = c } ∷ []) },
        ))
        written)

-- Under a name that cannot be opened, nothing is saved.
pub save_shut :
    (sha256 : List ℕ → List ℕ) (writable : List ℕ → Option (ℕ → ℕ)) (loc : Location) (r : Receiver)
    (w : World)
    → writable loc.filename ≡ none
    → (save sha256 writable loc r w).1 ≡ w
unfolding save
save_shut sha256 writable loc r w shut =
    let contents = take (sr_receiver_get_file r).1 (sr_receiver_get_file r).0 in
    elim (Bool-cases (same_bytes (sha256 contents) loc.hash)) [
      | inr differs ↦ rw (differs, save) refl
      | inl same ↦ rw (same, save, shut) refl
    ]
