-- ===== src/Boot/Fat/Files/Numbered.antt =====
-- The memory of the file system as long as every open file carries its index.
use netclover.Prelude.{
  ℕ, zero, suc, ◌+◌, ◌<◌, ◌≡◌, ◌⊎◌, ◌∙◌, inl, inr, refl, arith, false, some, Bool-cases, List, [],
  ◌∷◌, ◌==◌, length, get_elem?, set, length-set,
}
use netclover.Boot.Fat.{FileData, FatData, root_directory_handle}
use netclover.Boot.Fat.Kept.{Same}
use netclover.Boot.Fat.Files.{
  File, null, root, opened, pointee, put_pointee, data_of, put_data, free_handle,
}

abbrev pub max_file_handles : ℕ
max_file_handles = 10

-- The files from index `k` on: an open one carries its index.
abbrev pub Numbered : ℕ → List FileData → Type 0
Numbered k [] = Unit
Numbered k (fd ∷ rest) = ((fd.opened ≡ false) ⊎ (fd.handle ≡ k)) × Numbered (k + 1) rest

pub record WellFormed (f : FatData) : Type 0 where
  pub root_handle : f.root_directory.handle ≡ root_directory_handle
  pub count : length f.opened_files ≡ max_file_handles
  pub numbered : Numbered 0 f.opened_files

Numbered-set :
    (k i : ℕ) (files : List FileData) (fd : FileData)
    → Numbered k files
    → (fd.opened ≡ false) ⊎ (fd.handle ≡ k + i)
    → Numbered k (set files i fd)
Numbered-set k i [] fd h new = tt
Numbered-set k zero (old ∷ rest) fd (_, h) new =
    (elim new [ inl e ↦ inl e | inr e ↦ inr (omega arith) ], h)
Numbered-set k (suc i) (old ∷ rest) fd (h, hs) new =
    (h, Numbered-set (k + 1) i rest fd hs (elim new [ inl e ↦ inl e | inr e ↦ inr (omega arith) ]))

Numbered-get_elem? :
    (k i : ℕ) (files : List FileData) (fd : FileData)
    → Numbered k files
    → get_elem? files i ≡ some fd
    → (fd.opened ≡ false) ⊎ (fd.handle ≡ k + i)
Numbered-get_elem? k i [] fd h e = absurd (ground arith)
Numbered-get_elem? k zero (old ∷ rest) fd (h, hs) e = ground arith
Numbered-get_elem? k (suc i) (old ∷ rest) fd (h, hs) e =
    elim (Numbered-get_elem? (k + 1) i rest fd hs e) [
      | inl e' ↦ inl e'
      | inr e' ↦ inr (omega arith)
    ]

pub carried : {f f' : FatData} → f' ≡ f → WellFormed f → WellFormed f'
carried e w = rw e w

pub set-WellFormed :
    (f : FatData) (i : ℕ) (fd : FileData)
    → WellFormed f
    → (fd.opened ≡ false) ⊎ (fd.handle ≡ i)
    → WellFormed (record f { opened_files = set f.opened_files i fd })
set-WellFormed f i fd w new = record {
  root_handle = w.root_handle;
  count = length-set f.opened_files i fd ∙ w.count;
  numbered = Numbered-set 0 i f.opened_files fd w.numbered (ground (arith, new));
}

pub put_data-WellFormed :
    (f : FatData) (handle : ℕ) (old fd : FileData)
    → WellFormed f
    → data_of f handle ≡ some old
    → Same old fd
    → WellFormed (put_data handle fd f)
unfolding data_of put_data
put_data-WellFormed f handle old fd w there (h, o) =
    elim (Bool-cases (handle == root_directory_handle)) [
      | inl is_root ↦
          let same : put_data handle fd f ≡ record f { root_directory = fd } = rw is_root refl in
          let w' : WellFormed (record f { root_directory = fd }) = record {
            root_handle = ground (arith, w.root_handle);
            count = w.count;
            numbered = w.numbered;
          } in
          carried same w'
      | inr is_opened ↦
          let same : put_data handle fd f
              ≡ record f { opened_files = set f.opened_files handle fd } =
            rw is_opened refl in
          let old_there : get_elem? f.opened_files handle ≡ some old = ground arith in
          let old_numbered = Numbered-get_elem? 0 handle f.opened_files old w.numbered old_there in
          carried same (set-WellFormed f handle fd w (ground (arith, old_numbered)))
    ]

pub rewound_root-WellFormed :
    (f : FatData) (file : File) (public : FileData)
    → WellFormed f
    → pointee f file ≡ some public
    → WellFormed (put_pointee file (record public { position = 0 }) f)
unfolding pointee put_pointee
rewound_root-WellFormed f null public w e = w
rewound_root-WellFormed f root public w e = record {
  root_handle = ground (arith, w.root_handle);
  count = w.count;
  numbered = w.numbered;
}
rewound_root-WellFormed f (opened i) public w e =
    let known = Numbered-get_elem? 0 i f.opened_files public w.numbered e in
    set-WellFormed f i (record public { position = 0 }) w (ground (arith, known))

pub rewound-WellFormed :
    (f : FatData) (cluster : ℕ)
    → WellFormed f
    → WellFormed
        (record f { root_directory = record f.root_directory { current_cluster = cluster } })
rewound-WellFormed f cluster w = record {
  root_handle = w.root_handle;
  count = w.count;
  numbered = w.numbered;
}

pub free_handle_lt :
    (k handle : ℕ) (files : List FileData)
    → free_handle k files ≡ some handle
    → handle < k + length files
unfolding free_handle
free_handle_lt k handle [] e = absurd (ground arith)
free_handle_lt k handle (fd ∷ rest) e = elim (Bool-cases fd.opened) [
  | inl in_use ↦ ground (arith, free_handle_lt (k + 1) handle rest)
  | inr free ↦ ground arith
]

pub placed-WellFormed :
    (f : FatData) (handle : ℕ) (fd : FileData)
    → WellFormed f
    → handle < length f.opened_files
    → fd.handle ≡ handle
    → WellFormed (put_data handle fd f)
unfolding put_data
placed-WellFormed f handle fd w inside e =
    let is_opened : handle == root_directory_handle ≡ false = ground (arith, w.count) in
    let same : put_data handle fd f ≡ record f { opened_files = set f.opened_files handle fd } =
      rw is_opened refl in
    carried same (set-WellFormed f handle fd w (inr e))
