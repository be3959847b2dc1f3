-- ===== src/Registry/Fields.antt =====
-- Registered fields are found again, and stay what they are.
use flecsi.Base.{ℕ, ◌≡◌, refl, Option, none, some, ==_refl, ==_ne}
use native.Mathlib.Decide.{ℕ_discrete}
use flecsi.Connectivity.{and_then}
use flecsi.Registry.{
  Context, FieldInfo, insert_new, or_no_fields, put_field_info, field_from_name, field_from_key,
}

insert_new_self :
    {V : Type 0} (m : ℕ → Option V) (k : ℕ) (v : V) → m k ≡ none → insert_new m k v k ≡ some v
insert_new_self m k v e = rw (==_refl k, e) refl

insert_new_there :
    {V : Type 0} (m : ℕ → Option V) (k j : ℕ) (v old : V)
    → m j ≡ some old
    → insert_new m k v j ≡ some old
insert_new_there m k j v old e = elim (ℕ_discrete j k) [
  | yes same ↦ let at : m k ≡ some old = rw (← same) e in rw (same, ==_refl k, at) refl
  | no ne ↦ rw (==_ne j k ne) e
]

and_then_found :
    {A : Type 0} {B : Type 0} (o : Option A) (k : A → Option B) (b : B)
    → and_then o k ≡ some b
    → (a : A) × (o ≡ some a) × (k a ≡ some b)
and_then_found none k b e = absurd cc
and_then_found (some a) k b e = (a, refl, e)

-- A field that is registered under a name and a field id that are not in use is found by its name.
pub put_field_info-field_from_name :
    (c : Context) (f : FieldInfo)
    → c.field_names f.data_client_hash f.key ≡ none
    → or_no_fields (c.field_infos f.data_client_hash f.index_space) f.fid ≡ none
    → field_from_name (put_field_info c f) f.data_client_hash f.key ≡ some f
unfolding field_from_name put_field_info
put_field_info-field_from_name c f no_name no_field =
    let hash = ==_refl f.data_client_hash in
    let space = ==_refl f.index_space in
    let name =
      insert_new_self (c.field_names f.data_client_hash) f.key (f.index_space, f.fid) no_name in
    let field =
      insert_new_self (or_no_fields (c.field_infos f.data_client_hash f.index_space)) f.fid f
        no_field in
    rw (hash, name, space, field) refl

names_kept :
    (c : Context) (f : FieldInfo) (hash key : ℕ) (at : ℕ × ℕ)
    → c.field_names hash key ≡ some at
    → (put_field_info c f).field_names hash key ≡ some at
unfolding put_field_info
names_kept c f hash key at e = elim (ℕ_discrete hash f.data_client_hash) [
  | yes same ↦
      let there : c.field_names f.data_client_hash key ≡ some at = rw (← same) e in
      rw (same, ==_refl f.data_client_hash)
        (insert_new_there (c.field_names f.data_client_hash) f.key key (f.index_space, f.fid) at
          there)
  | no ne ↦ rw (==_ne hash f.data_client_hash ne) e
]

infos_kept :
    (c : Context) (f g : FieldInfo) (hash space fid : ℕ) (m : ℕ → Option FieldInfo)
    → c.field_infos hash space ≡ some m
    → m fid ≡ some g
    → (m' : ℕ → Option FieldInfo) × ((put_field_info c f).field_infos hash space ≡ some m')
      × (m' fid ≡ some g)
unfolding put_field_info
infos_kept c f g hash space fid m e at = elim (ℕ_discrete hash f.data_client_hash) [
  | yes same ↦ elim (ℕ_discrete space f.index_space) [
    | yes same' ↦
        let there : c.field_infos f.data_client_hash f.index_space ≡ some m =
          rw (← same, ← same') e in
        let old : or_no_fields (c.field_infos f.data_client_hash f.index_space) fid ≡ some g =
          rw (there) at in
        (
          insert_new (or_no_fields (c.field_infos f.data_client_hash f.index_space)) f.fid f,
          rw (same, same', ==_refl f.data_client_hash, ==_refl f.index_space) refl,
          insert_new_there (or_no_fields (c.field_infos f.data_client_hash f.index_space)) f.fid fid
              f g old,
        )
    | no ne ↦
        (m, rw (same, ==_refl f.data_client_hash, ==_ne space f.index_space ne) (rw (← same) e), at)
  ]
  | no ne ↦ (m, rw (==_ne hash f.data_client_hash ne) e, at)
]

-- When the search by name finds the field `g` in a context, then after the registration of any field
-- the search by name and the search by key both still give `g`.
pub put_field_info-persists :
    (c : Context) (f g : FieldInfo) (hash key : ℕ)
    → field_from_name c hash key ≡ some g
    → (field_from_name (put_field_info c f) hash key ≡ some g)
      × (field_from_key (put_field_info c f) hash key ≡ some g)
unfolding field_from_name field_from_key
put_field_info-persists c f g hash key e =
    let at = and_then_found (c.field_names hash key) _ g e in
    let fields = and_then_found (c.field_infos hash at.0.0) _ g at.2 in
    let name = names_kept c f hash key at.0 at.1 in
    let found = infos_kept c f g hash at.0.0 at.0.1 fields.0 fields.1 fields.2 in
    (rw (name, found.1) found.2, rw (name, found.1) found.2)
