-- ===== src/Storage/Password.antt =====
-- The password: what `update_password` stores is what `password_check` compares with.
use basic_setup.Prelude.{
  ℕ, ◌≡◌, refl, ◌∙◌, sym, Bool, true, ◌&&◌, Option, none, some, List, [], ◌∷◌, length,
  if◌then◌else◌, ◌↔◌, arith, Bool-cases, inl, inr,
}
use basic_setup.Device.{
  is_ok, Namespace, app, readonly, readwrite, Key, pwd, Env, NvsLaws, same_namespace, same_key,
}
use basic_setup.Storage.{
  bytes_equal, with_handle, nvs_save, password_hash, compare_stored, password_check,
  update_password,
}
use basic_setup.Storage.Handles.{close_local-nonzero}

pub bytes_equal_iff : (xs ys : List ℕ) → (bytes_equal xs ys ≡ true) ↔ (xs ≡ ys)
unfolding bytes_equal
bytes_equal_iff [] [] = (λ h. refl, λ h. refl)
bytes_equal_iff [] (y ∷ ys) = (λ h. cc, λ h. cc)
bytes_equal_iff (x ∷ xs) [] = (λ h. cc, λ h. cc)
bytes_equal_iff (x ∷ xs) (y ∷ ys) =
    (λ h. ground (arith, (bytes_equal_iff xs ys).0), λ h. ground (arith, (bytes_equal_iff xs ys).1))

module _ {N : Type 0} (env : Env N) (laws : NvsLaws env.flash) where
  open laws use {handles, stored}

  -- Whether NVS stores a blob that is set on a handle of its own, without nvs_commit.
  abbrev pub keeps : Key → List ℕ → N → Bool
  keeps key blob n = let (err, h, n1) = env.nvs_open app readwrite n in laws.kept h key blob n1

  -- A save on a handle of its own that reports success has stored the blob if NVS stores it without
  -- nvs_commit, and nothing else.
  pub nvs_save-stored :
      (key : Key) (blob : List ℕ) (n : N)
      → is_ok (nvs_save env none key blob n).0 ≡ true
      → (ns : Namespace) (k : Key)
      → stored (nvs_save env none key blob n).1 ns k ≡ (
          if keeps key blob n && (same_namespace app ns && same_key key k)
          then some blob
          else stored n ns k)
  unfolding nvs_save with_handle
  nvs_save-stored key blob n ok ns k = elim (Bool-cases (is_ok (env.nvs_open app readwrite n).0)) [
    | inr failed ↦ cc (sym failed ∙ rw (failed, nvs_save) at ok)
    | inl opened ↦
        let (err, h, n1) = env.nvs_open app readwrite n in
        let saved : is_ok (env.nvs_set_blob h key blob n1).0 ≡ true = rw opened at ok in
        let (nonzero, top, same) = laws.open_ok app readwrite n opened in
        let set = laws.set_ok h app (handles n) key blob n1 top saved ns k in
        let closed = laws.close_top h app (handles n) _ (laws.set_handles h key blob n1 ∙ top) in
        rw (opened, close_local-nonzero env _ _ nonzero, closed.1, set, same) refl
  ]

  update_password-eq :
      (plain hashed : List ℕ) (handle : Option ℕ) (n : N)
      → env.sha256 plain ≡ some hashed
      → update_password env plain handle n ≡ nvs_save env none pwd hashed n
  unfolding update_password password_hash
  update_password-eq plain hashed handle n e = rw (e, update_password)

  password_check_stored :
      (input hashed hashed_input : List ℕ) (n : N)
      → env.sha256 input ≡ some hashed_input
      → length hashed ≡ 32
      → stored n app pwd ≡ some hashed
      → is_ok (env.nvs_open app readonly n).0 ≡ true
      → is_ok (password_check env input n).0 ≡ bytes_equal hashed hashed_input
  unfolding password_check password_hash compare_stored
  password_check_stored input hashed hashed_input n e len held opened =
      let (err, h, n1) = env.nvs_open app readonly n in
      let (nonzero, top, same) = laws.open_ok app readonly n opened in
      let found =
        laws.get_found h app (handles n) pwd 32 n1 hashed top (rw same held) (omega arith) in
      rw (e, password_check) (rw (opened, found, len) (ground arith))

  -- After a successful `update_password`, `password_check` accepts an input exactly when it has
  -- the hash of the new password if NVS stores a blob without nvs_commit, and that of the old one
  -- if it does not, provided that NVS opens, the hashes can be computed, and both stored ones have 32
  -- bytes.
  pub password_check-update_password :
      (plain input old hashed hashed_input : List ℕ) (handle : Option ℕ) (n : N)
      → env.sha256 plain ≡ some hashed
      → env.sha256 input ≡ some hashed_input
      → length hashed ≡ 32
      → stored n app pwd ≡ some old
      → length old ≡ 32
      → is_ok (update_password env plain handle n).0 ≡ true
      → is_ok (env.nvs_open app readonly (update_password env plain handle n).1).0 ≡ true
      → (is_ok (password_check env input (update_password env plain handle n).1).0 ≡ true)
        ↔ ((if keeps pwd hashed n then hashed else old) ≡ hashed_input)
  password_check-update_password plain input old hashed hashed_input handle n e e' len held len' ok
        opened =
      let save = update_password-eq plain hashed handle n e in
      let saved : is_ok (nvs_save env none pwd hashed n).0 ≡ true = rw save at ok in
      let after = nvs_save-stored pwd hashed n saved app pwd in
      let opens : is_ok (env.nvs_open app readonly (nvs_save env none pwd hashed n).1).0 ≡ true =
        rw save at opened in
      elim (Bool-cases (keeps pwd hashed n)) [
        | inl k ↦
            let new : stored (nvs_save env none pwd hashed n).1 app pwd ≡ some hashed =
              after ∙ rw k refl in
            rw (save, password_check_stored input hashed hashed_input _ e' len new opens, k)
              (bytes_equal_iff hashed hashed_input)
        | inr k ↦
            let same : stored (nvs_save env none pwd hashed n).1 app pwd ≡ some old =
              after ∙ rw k held in
            rw (save, password_check_stored input old hashed_input _ e' len' same opens, k)
              (bytes_equal_iff old hashed_input)
      ]
