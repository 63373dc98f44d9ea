-- ===== src/Fs/Directory/Sizes.antt =====
-- `list_root_files` of fs/msdos/fs.c leaves the arrays of the listings at their sizes.
use rml.Base.{
  ℕ, zero, suc, ◌+◌, ◌||◌, not, List, [], ◌∷◌, length, All, fetch, modify, ◌==◌, ◌≡◌, refl, ap, ◌∙◌,
}
use rml.Base.Post.{Post, returns, stops, Post-if, Post-option_elim, Post-then, Post-bind}
use rml.Clib.Text.{strcpy}
use rml.Kernel.{Kernel, Machine}
use rml.Fs.Layout.{Fat16Entry}
use rml.Fs.Entry.{
  SyscallFileEntry, extract_file_name, first_byte, get_entry_type, is_file, listing_of,
}
use rml.Fs.Directory.{get_root_next_file, list_from}
use rml.Params.Listings.{HasNames}

strcpy-Size : (dst src : List ℕ) → Post (λ r. length r ≡ length dst) (strcpy dst src)
unfolding strcpy
strcpy-Size dst [] = stops
strcpy-Size [] (c ∷ src) = stops
strcpy-Size (d ∷ dst) (c ∷ src) =
    Post-if (c == 0) (returns refl)
      (Post-bind (strcpy dst src) (strcpy-Size dst src) (λ r h. returns (ap suc h)))

fetch-All :
    (P : SyscallFileEntry → Type 0) (xs : List SyscallFileEntry) (i : ℕ)
    → All P xs
    → Post P (fetch xs i)
unfolding fetch
fetch-All P [] i h = stops
fetch-All P (x ∷ xs) zero h = returns h.0
fetch-All P (x ∷ xs) (suc i) h = fetch-All P xs i h.1

modify-All :
    (P : SyscallFileEntry → Type 0) (xs : List SyscallFileEntry) (i : ℕ) (v : SyscallFileEntry)
    → P v
    → All P xs
    → Post (λ ys. All P ys) (modify xs i (λ _. v))
unfolding modify
modify-All P [] i v p h = stops
modify-All P (x ∷ xs) zero v p h = returns (p, h.1)
modify-All P (x ∷ xs) (suc i) v p h =
    Post-bind (modify xs i (λ _. v)) (modify-All P xs i v p h.1) (λ ys g. returns (h.0, g))

listing_of-HasNames :
    (e : Fat16Entry) (name ext : List ℕ) (old : SyscallFileEntry)
    → HasNames old
    → Post HasNames (listing_of e name ext old)
unfolding listing_of
listing_of-HasNames e name ext old h =
    Post-bind (strcpy old.name name) (strcpy-Size old.name name) λ n p.
      Post-bind (strcpy old.ext ext) (strcpy-Size old.ext ext) λ x q. returns (p ∙ h.0, q ∙ h.1)

module _ (m : Machine) where
  pub list_from-HasNames :
      (fuel left c : ℕ) (buf : List SyscallFileEntry) (k : Kernel)
      → All HasNames buf
      → Post (λ r. All HasNames r.1) (list_from m fuel left c buf k)
  unfolding list_from
  list_from-HasNames zero left c buf k h = stops
  list_from-HasNames (suc fuel) zero c buf k h = returns h
  list_from-HasNames (suc fuel) (suc left) c buf k h = Post-then (get_root_next_file m k) λ r.
      Post-option_elim r.0 (returns h) λ e.
        Post-if (not (is_file (get_entry_type e)) || first_byte e == 0xe5)
          (list_from-HasNames fuel (suc left) c buf r.1 h)
          (Post-if (first_byte e == 0x00) (returns h) (
            Post-then (extract_file_name (suc fuel) e) λ names.
              Post-bind (fetch buf c) (fetch-All HasNames buf c h) λ old p.
                Post-bind (listing_of e names.0 names.1 old)
                  (listing_of-HasNames e names.0 names.1 old p)
                  λ stored q.
                    Post-bind (modify buf c (λ _. stored)) (modify-All HasNames buf c stored q h)
                      (λ buf' g. list_from-HasNames fuel left (c + 1) buf' r.1 g)))
