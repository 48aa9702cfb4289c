-- ===== src/Mongo.antt =====
-- MongoDB as the services use it, through mongoose. The database is not code of the repository:
-- `Collection` is a parameter of the models, its fields are the calls that they make, and its laws
-- are what the MongoDB manual documents of each call. The contents of a collection are a list in
-- the order in which the server visits the documents; since every theorem is about all lists, no
-- order is assumed. A `filter` is a Boolean test, and a `$set` is a function on documents.
pub mod Laws
pub mod InMemory
use patch_proof_api.Base.{
  ℕ, ◌≤◌, ◌≡◌, ◌⊎◌, Bool, true, false, List, [], ◌∷◌, ◌++◌, Option, none, some, ◌==◌, if◌then◌else◌,
  is_some, All, take, keep, length,
}

module _ {D : Type 0} where
  -- The first document that passes.
  abbrev pub first : (D → Bool) → List D → Option D
  first p [] = none
  first p (d ∷ ds) = if p d then some d else first p ds

  -- `f` at the first document that passes.
  abbrev pub modify_first : (D → Bool) → (D → D) → List D → List D
  modify_first p f [] = []
  modify_first p f (d ∷ ds) = if p d then f d ∷ ds else d ∷ modify_first p f ds

  -- `f` at every document that passes.
  abbrev pub modify_all : (D → Bool) → (D → D) → List D → List D
  modify_all p f [] = []
  modify_all p f (d ∷ ds) = (if p d then f d else d) ∷ modify_all p f ds

  -- Without the first document that passes.
  abbrev pub drop_first : (D → Bool) → List D → List D
  drop_first p [] = []
  drop_first p (d ∷ ds) = if p d then ds else d ∷ drop_first p ds

  -- What `findOneAndUpdate` with `sort` does: nothing passes and nothing changes, or one document
  -- that passes and is least by the sort key is replaced; which one of several such is open.
  abbrev pub Picks : (D → Bool) → (D → ℕ) → (D → D) → List D → Option D → List D → Type 0
  Picks p key f ds r ds' =
      (All (λ d. p d ≡ false) ds × (r ≡ none) × (ds' ≡ ds))
      ⊎ ((xs : List D) × (d : D) × (ys : List D) × (ds ≡ xs ++ d ∷ ys)
          × (p d ≡ true)
          × All (λ e. p e ≡ true → key d ≤ key e) ds
          × (r ≡ some (f d))
          × (ds' ≡ xs ++ f d ∷ ys))

-- `.limit(n)`, which at 0 is no limit.
abbrev pub limit_to : {D : Type 0} → ℕ → List D → List D
limit_to n ds = if n == 0 then ds else take n ds

-- One collection of documents of type `D`. `create` fails on a unique index or on the schema,
-- which the models test before they call it.
pub record Collection (D : Type 0) : Type 0 where
  pub find_one : (D → Bool) → List D → Option D
  pub find_one_law : (p : D → Bool) (ds : List D) → find_one p ds ≡ first p ds
  -- `find(filter).limit(n)`; a search without a limit has 0
  pub find : (D → Bool) → ℕ → List D → List D
  pub find_law : (p : D → Bool) (n : ℕ) (ds : List D) → find p n ds ≡ limit_to n (keep p ds)
  pub count : (D → Bool) → List D → ℕ
  pub count_law : (p : D → Bool) (ds : List D) → count p ds ≡ length (keep p ds)
  pub update_one : (D → Bool) → (D → D) → List D → List D
  pub update_one_law :
      (p : D → Bool) (f : D → D) (ds : List D) → update_one p f ds ≡ modify_first p f ds
  pub update_many : (D → Bool) → (D → D) → List D → List D
  pub update_many_law :
      (p : D → Bool) (f : D → D) (ds : List D) → update_many p f ds ≡ modify_all p f ds
  -- `updateOne(…, { upsert: true })`, with the document that is inserted where none passes
  pub upsert : (D → Bool) → (D → D) → D → List D → List D
  pub upsert_law :
      (p : D → Bool) (f : D → D) (d : D) (ds : List D)
      → upsert p f d ds ≡ (if is_some (first p ds) then modify_first p f ds else ds ++ d ∷ [])
  pub create : D → List D → List D
  pub create_law : (d : D) (ds : List D) → create d ds ≡ ds ++ d ∷ []
  -- `findOneAndUpdate(filter, update, { sort, new: true })`
  pub find_one_and_update : (D → Bool) → (D → ℕ) → (D → D) → List D → Option D × List D
  pub find_one_and_update_law :
      (p : D → Bool) (key : D → ℕ) (f : D → D) (ds : List D)
      → Picks p key f ds (find_one_and_update p key f ds).0 (find_one_and_update p key f ds).1
  -- `findOneAndDelete(filter)`
  pub find_one_and_delete : (D → Bool) → List D → Option D × List D
  pub find_one_and_delete_law :
      (p : D → Bool) (ds : List D) → find_one_and_delete p ds ≡ (first p ds, drop_first p ds)
