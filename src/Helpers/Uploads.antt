-- ===== src/Helpers/Uploads.antt =====
-- The code ids that `upload_wasm_files` gives, and that it ends well if every upload does.
use cw_it.Base.{
  ℕ, ◌≡◌, refl, sym, ◌∙◌, ap, true, false, some, List, [], ◌∷◌, bytes_eq, ◌==◌, if◌then◌else◌,
  contains, arith, Bool-cases, inl, inr, ◌⊎◌,
}
use cw_it.Text.{Text}
use cw_it.Chain.{ok, Action, find, ok-cancel, outcome, succeeds, fails, panics}
use cw_it.Chain.Seq.{>>=-inv, >>=-ok}
use cw_it.Client.{Account}
use cw_it.Helpers.{insert, final_name, upload_wasm_file, upload_into, upload_wasm_files}

pub find-insert :
    {V : Type 0} (j k : Text) (v : V) (l : List (Text × V))
    → find j (insert k v l) ≡ (if j == k then some v else find j l)
unfolding insert bytes_eq
find-insert j k v [] = refl
find-insert j k v ((i, w) ∷ l) = ground (arith, find-insert j k v l)

module _ {S C : Type 0} (store_code : C → Account → Action S ℕ) (replace_artifact_name : Text)
    (signer : Account) where
  abbrev pub names : List (Text × C) → List Text
  names [] = []
  names ((name, _) ∷ l) = final_name replace_artifact_name name ∷ names l

  -- No two contracts get the same final name.
  abbrev pub HaveDifferentNames : List (Text × C) → Type 0
  HaveDifferentNames [] = Unit
  HaveDifferentNames ((name, _) ∷ l) =
      (contains (names l) (final_name replace_artifact_name name) ≡ false) × HaveDifferentNames l

  -- The contracts are stored one after the other, with these ids.
  abbrev pub Stores : List (Text × C) → List ℕ → S → S → Type 0
  Stores [] [] s t = s ≡ t
  Stores [] (_ ∷ _) s t = ⊥
  Stores (_ ∷ _) [] s t = ⊥
  Stores ((_, contract) ∷ l) (id ∷ ids) s t =
      (u : S) × (store_code contract signer s ≡ (ok id, u)) × Stores l ids u t

  -- The map gives the final name of each contract its id.
  abbrev pub Holds : List (Text × C) → List ℕ → List (Text × ℕ) → Type 0
  Holds [] ids m = Unit
  Holds (_ ∷ _) [] m = ⊥
  Holds ((name, _) ∷ l) (id ∷ ids) m =
      (find (final_name replace_artifact_name name) m ≡ some id) × Holds l ids m

  upload_wasm_file-inv :
      (contract : C) (s : S) {id : ℕ} {t : S}
      → upload_wasm_file store_code signer contract s ≡ (ok id, t)
      → store_code contract signer s ≡ (ok id, t)
  unfolding upload_wasm_file
  upload_wasm_file-inv contract s h = elim (outcome (store_code contract signer s).0) [
    | succeeds a e ↦ ground (arith, e)
    | fails e f ↦ absurd (ground (arith, f))
    | panics f ↦ absurd (ground (arith, f))
  ]

  -- A key that no later contract gets keeps its id.
  upload_into-find :
      (l : List (Text × C)) (acc : List (Text × ℕ)) (s : S) {m : List (Text × ℕ)} {t : S} (k : Text)
      → upload_into store_code replace_artifact_name signer acc l s ≡ (ok m, t)
      → contains (names l) k ≡ false
      → find k m ≡ find k acc
  unfolding upload_into bytes_eq
  upload_into-find [] acc s k h absent = ap (find k) (sym (ok-cancel (ap (λ r. r.0) h)))
  upload_into-find ((name, contract) ∷ l) acc s k h absent = >>=-inv _ _ _ h λ id u first rest.
      let later =
        upload_into-find l (insert (final_name replace_artifact_name name) id acc) u k rest
          (ground arith) in
      later ∙ find-insert k (final_name replace_artifact_name name) id acc ∙ ground arith

  upload_into-Holds :
      (l : List (Text × C)) (acc : List (Text × ℕ)) (s : S) {m : List (Text × ℕ)} {t : S}
      → upload_into store_code replace_artifact_name signer acc l s ≡ (ok m, t)
      → HaveDifferentNames l
      → (ids : List ℕ) × Stores l ids s t × Holds l ids m
  unfolding upload_into bytes_eq
  upload_into-Holds [] acc s h different = ([], ap (λ r. r.1) h, tt)
  upload_into-Holds ((name, contract) ∷ l) acc s h (new, different) =
      >>=-inv _ _ _ h λ id u first rest.
        let (ids, stored, held) = upload_into-Holds l _ u rest different in
        (
          id ∷ ids,
          (u, upload_wasm_file-inv contract s first, stored),
          (
            upload_into-find l _ u (final_name replace_artifact_name name) rest new
                ∙ find-insert (final_name replace_artifact_name name)
                    (final_name replace_artifact_name name) id acc
                ∙ ground arith,
            held,
          ),
        )

  -- If no two contracts get the same final name and `upload_wasm_files` succeeds with the map `m`,
  -- then it has stored the contracts one after the other, and `m` gives the final name of each of
  -- them the id that its own upload returned.
  pub upload_wasm_files-Holds :
      (contracts : List (Text × C)) (s : S) (m : List (Text × ℕ)) (t : S)
      → upload_wasm_files store_code replace_artifact_name signer contracts s ≡ (ok m, t)
      → HaveDifferentNames contracts
      → (ids : List ℕ) × Stores contracts ids s t × Holds contracts ids m
  unfolding upload_wasm_files
  upload_wasm_files-Holds contracts s m t h different = upload_into-Holds contracts [] s h different

  abbrev pub HasKey : Text → List (Text × ℕ) → Type 0
  HasKey k m = (id : ℕ) × (find k m ≡ some id)

  HasKey-insert :
      (k j : Text) (id : ℕ) (acc : List (Text × ℕ)) → HasKey k acc → HasKey k (insert j id acc)
  unfolding bytes_eq
  HasKey-insert k j id acc (i, e) = elim (Bool-cases (k == j)) [
    | inl same ↦ (id, ground (arith, find-insert k j id acc))
    | inr other ↦ (i, ground (arith, find-insert k j id acc))
  ]

  HasKey-of_insert :
      (k j : Text) (id : ℕ) (acc : List (Text × ℕ)) → (k == j) ≡ true → HasKey k (insert j id acc)
  unfolding bytes_eq
  HasKey-of_insert k j id acc same = (id, ground (arith, find-insert k j id acc))

  -- Every upload succeeds.
  abbrev pub AlwaysStores : Type 0
  AlwaysStores = (c : C) (s : S) → (id : ℕ) × (t : S) × (store_code c signer s ≡ (ok id, t))

  upload_into-total :
      (l : List (Text × C)) (acc : List (Text × ℕ)) (s : S)
      → AlwaysStores
      → (m : List (Text × ℕ)) × (t : S) × (upload_into store_code replace_artifact_name signer acc l
            s
          ≡ (ok m, t))
        × ((k : Text) → HasKey k acc ⊎ (contains (names l) k ≡ true) → HasKey k m)
  unfolding upload_into upload_wasm_file bytes_eq
  upload_into-total [] acc s stores =
      (acc, s, refl, λ k h. elim h [ inl has ↦ has | inr listed ↦ absurd (ground arith) ])
  upload_into-total ((name, contract) ∷ l) acc s stores =
      let (id, u, stored) = stores contract s in
      let j = final_name replace_artifact_name name in
      let (m, t, rest, keys) = upload_into-total l (insert j id acc) u stores in
      (
        m,
        t,
        >>=-ok _ _ _ (ground (arith, stored)) rest,
        λ k h. elim h [
          | inl has ↦ keys k (inl (HasKey-insert k j id acc has))
          | inr listed ↦ elim (Bool-cases (j == k)) [
            | inl same ↦ keys k (inl (HasKey-of_insert k j id acc (ground arith)))
            | inr other ↦ keys k (inr (ground arith))
          ]
        ],
      )

  -- If every upload succeeds, `upload_wasm_files` does, and its map has every final name.
  pub upload_wasm_files-total :
      (contracts : List (Text × C)) (s : S)
      → AlwaysStores
      → (m : List (Text × ℕ)) × (t : S) × (upload_wasm_files store_code replace_artifact_name signer
            contracts s
          ≡ (ok m, t))
        × ((k : Text) → contains (names contracts) k ≡ true → HasKey k m)
  unfolding upload_wasm_files
  upload_wasm_files-total contracts s stores =
      let (m, t, h, keys) = upload_into-total contracts [] s stores in
      (m, t, h, λ k e. keys k (inr e))
