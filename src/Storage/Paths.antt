-- ===== src/Storage/Paths.antt =====
-- The paths of internal/storage/storage.go: New, InputPath and OutputPath.
use ilove_convertion.Base.{
  ◌≡◌, ◌≢◌, refl, sym, ap, ◌∙◌, List, [], ◌∷◌, ◌++◌, Str, codes, All, append_assoc,
}
use ilove_convertion.Base.Path.{absolute, join_path, IsElement, is_element, is_element→IsElement}
use ilove_convertion.Base.Path.Clean.{join_path-element, absolute_inj}

pub record Directories : Type 0 where
  pub base_path : Str
  pub inputs_dir : Str
  pub outputs_dir : Str

unfoldable pub new_storage : Str → Directories
new_storage base = record {
  base_path = base;
  inputs_dir = join_path base (codes "inputs");
  outputs_dir = join_path base (codes "outputs");
}

unfoldable pub input_path : Directories → Str → Str
input_path d job_id = join_path d.inputs_dir job_id

unfoldable pub output_path : Directories → Str → Str
output_path d job_id = join_path d.outputs_dir job_id

inputs-IsElement : IsElement (codes "inputs")
inputs-IsElement = is_element→IsElement (codes "inputs") (unfold is_element in refl)

outputs-IsElement : IsElement (codes "outputs")
outputs-IsElement = is_element→IsElement (codes "outputs") (unfold is_element in refl)

module _ (base : List Str) (root : All IsElement base) where
  below : (dir id : Str) → IsElement dir → IsElement id → All IsElement (base ++ dir ∷ id ∷ [])
  below dir id hd hi = by base root
    where
      by : (ps : List Str) → All IsElement ps → All IsElement (ps ++ dir ∷ id ∷ [])
      by [] h = (hd, (hi, tt))
      by (p ∷ ps) (h, hs) = (h, by ps hs)

  path_lem :
      (dir id : Str)
      → IsElement dir
      → IsElement id
      → join_path (join_path (absolute base) dir) id ≡ absolute (base ++ dir ∷ id ∷ [])
  path_lem dir id hd hi = rw (join_path-element base dir root hd) (
      join_path-element (base ++ dir ∷ []) id (first base root) hi
      ∙ ap absolute (append_assoc base (dir ∷ []) (id ∷ [])))
    where
      first : (ps : List Str) → All IsElement ps → All IsElement (ps ++ dir ∷ [])
      first [] h = (hd, tt)
      first (p ∷ ps) (h, hs) = (h, first ps hs)

  same_paths :
      (dir dir' id id' : Str)
      → IsElement dir
      → IsElement dir'
      → IsElement id
      → IsElement id'
      → join_path (join_path (absolute base) dir) id
        ≡ join_path (join_path (absolute base) dir') id'
      → (dir ≡ dir') × (id ≡ id')
  same_paths dir dir' id id' hd hd' hi hi' e = last_two base (
      absolute_inj (base ++ dir ∷ id ∷ []) (base ++ dir' ∷ id' ∷ []) (below dir id hd hi)
        (below dir' id' hd' hi') (sym (path_lem dir id hd hi) ∙ (e ∙ path_lem dir' id' hd' hi')))
    where
      last_two :
          (ps : List Str) → ps ++ dir ∷ id ∷ [] ≡ ps ++ dir' ∷ id' ∷ [] → (dir ≡ dir') × (id ≡ id')
      last_two [] e = (cc, cc)
      last_two (p ∷ ps) e = last_two ps (cc)

  -- Two job ids without slashes have the same input path, or the same output path, only if they are
  -- equal, and an input and an output never share a path: so the files of the jobs do not overwrite
  -- one another.
  pub storage_paths_distinct :
      (id id' : Str)
      → IsElement id
      → IsElement id'
      → let d = new_storage (absolute base) in
        (input_path d id ≡ input_path d id' → id ≡ id')
        × (output_path d id ≡ output_path d id' → id ≡ id')
        × (input_path d id ≢ output_path d id')
  unfolding new_storage input_path output_path
  storage_paths_distinct id id' h h' = (
    λ e.
        (same_paths (codes "inputs") (codes "inputs") id id' inputs-IsElement inputs-IsElement h h'
          e).1,
    λ e.
        (same_paths (codes "outputs") (codes "outputs") id id' outputs-IsElement outputs-IsElement h
          h' e).1,
    λ e.
        let names =
          (same_paths (codes "inputs") (codes "outputs") id id' inputs-IsElement outputs-IsElement h
            h' e).0 in
        cc,
  )
