-- ===== src/Socket/Loop.antt =====
-- The read loop over a stream that delivers.
use native.Mathlib.Nat.{zero-add, suc-add}
use dropbox_ufrgs_sisop.Prelude.{
  ℕ, zero, suc, ◌+◌, ◌≤◌, ◌<◌, ◌≢◌, ◌∙◌, ◌-◌, length-take, length-drop, take-length-append, ◌≡◌,
  refl, sym, ap, List, [], ◌∷◌, ◌++◌, arith, length, take, drop, length-append, append-nil,
  append_assoc, ◌^◌,
}
use dropbox_ufrgs_sisop.Prelude.Int.{pos}
use dropbox_ufrgs_sisop.Prelude.Outcome.{SocketError, done}
use dropbox_ufrgs_sisop.Bytes.{Bytes}
use dropbox_ufrgs_sisop.Os.{Os, got}
use dropbox_ufrgs_sisop.Os.Stream.{IsStream}
use dropbox_ufrgs_sisop.Socket.{patch, read_loop}

-- A shorter front of a list is a front of the longer one.
append-split {ℓ} :
    {A : Type ℓ} (xs rest bs more : List A)
    → xs ++ rest ≡ bs ++ more
    → length bs ≤ length xs
    → (ys : List A) × (xs ≡ bs ++ ys) × (more ≡ ys ++ rest)
append-split xs rest [] more e h = (xs, refl, sym e)
append-split [] rest (b ∷ bs) more e h = absurd (omega arith)
append-split (x ∷ xs) rest (b ∷ bs) more e h =
    let (ys, p, q) = append-split xs rest bs more (cc) (omega arith) in (ys, cc, q)

take-add-append {ℓ} :
    {A : Type ℓ} (xs ys : List A) (m : ℕ) → take (length xs + m) (xs ++ ys) ≡ xs ++ take m ys
take-add-append [] ys m = rw zero-add
take-add-append (x ∷ xs) ys m = rw suc-add (ap (◌∷◌ x) (take-add-append xs ys m))

take-patch :
    (memory : Bytes) (n : ℕ) (bs : Bytes)
    → n ≤ length memory
    → take (n + length bs) (patch memory n bs) ≡ take n memory ++ bs
take-patch memory n bs h =
    ap (λ k. take (k + length bs) (patch memory n bs)) (sym (length-take n memory h))
    ∙ take-add-append (take n memory) _ (length bs)
    ∙ ap (◌++◌ (take n memory)) (take-length-append bs _)

length-patch :
    (memory : Bytes) (n : ℕ) (bs : Bytes)
    → n + length bs ≤ length memory
    → length (patch memory n bs) ≡ length memory
length-patch memory n bs h = omega (
  arith,
  length-append (take n memory) (bs ++ drop (n + length bs) memory),
  length-append bs (drop (n + length bs) memory),
  length-take n memory (omega arith),
  length-drop (n + length bs) memory,
)

pub take-all {ℓ} : {A : Type ℓ} (xs : List A) (n : ℕ) → n ≡ length xs → take n xs ≡ xs
take-all [] zero h = refl
take-all [] (suc n) h = refl
take-all (x ∷ xs) zero h = absurd (omega arith)
take-all (x ∷ xs) (suc n) h = ap (◌∷◌ x) (take-all xs n (omega arith))

length-pos : {xs : Bytes} → xs ≢ [] → 0 < length xs
length-pos {xs = []} h = absurd (h refl)
length-pos {xs = x ∷ xs} h = omega arith

module _ (os : Os) (w fd : ℕ) (e : SocketError) where
  read_loop-done :
      (fuel size : ℕ) (memory : Bytes) (s : os.State)
      → read_loop os (suc fuel) w fd size e memory (pos size) s ≡ done memory s
  unfolding read_loop
  read_loop-done fuel size memory s = ground arith

  read_loop-got :
      (fuel size n : ℕ) (memory : Bytes) (s : os.State) (bs : Bytes) (t : os.State)
      → n < size
      → n + length bs < 2 ^ 31
      → os.recv s fd (size - n) ≡ (got bs, t)
      → read_loop os (suc fuel) w fd size e memory (pos n) s
        ≡ read_loop os fuel w fd size e (patch memory n bs) (pos (n + length bs)) t
  unfolding read_loop
  read_loop-got fuel size n memory s bs t h fits r = ground arith

module _ (os : Os) (stream : IsStream os) (w fd : ℕ) (e : SocketError) where
  open stream use {pending, recv-pending}

  -- What is missing is `xs`, and it is on its way; fuel for one round more than bytes suffices.
  pub read_loop-pending :
      (fuel size n : ℕ) (memory xs rest : Bytes) (s : os.State)
      → length xs < fuel
      → n + length xs ≡ size
      → size < 2 ^ 31
      → length memory ≡ size
      → pending s fd ≡ xs ++ rest
      → (t : os.State) × (read_loop os fuel w fd size e memory (pos n) s
          ≡ done (take n memory ++ xs) t)
        × (pending t fd ≡ rest)
  read_loop-pending zero size n memory xs rest s f c small m p = absurd (omega arith)
  read_loop-pending (suc fuel) size n memory [] rest s f c small m p =
      let whole : n ≡ size = omega arith in
      (
        s,
        ap (λ k. read_loop os (suc fuel) w fd size e memory (pos k) s) whole
            ∙ read_loop-done os w fd e fuel size memory s
            ∙ ap (λ b. done b s)
                (sym (append-nil (take n memory) ∙ take-all memory n (whole ∙ sym m))),
        p,
      )
  read_loop-pending (suc fuel) size n memory (x ∷ xs) rest s f c small m p =
      let (bs, t, answer, some_bs, fits, front) =
        recv-pending s fd (size - n) (omega arith) (λ none. cc) in
      let fits' : length bs ≤ length (x ∷ xs) = omega arith in
      let (ys, split, left) = append-split (x ∷ xs) rest bs (pending t fd) (sym p ∙ front) fits' in
      let more : 0 < length bs = length-pos some_bs in
      let sizes : length (x ∷ xs) ≡ length bs + length ys = ap length split ∙ length-append bs ys in
      let fuel' : length ys < fuel = omega arith in
      let left' : (n + length bs) + length ys ≡ size = omega arith in
      let room : n + length bs ≤ length memory = omega arith in
      let (u, r, q) =
        read_loop-pending fuel size (n + length bs) (patch memory n bs) ys rest t fuel' left' small
          (length-patch memory n bs room ∙ m) left in
      (
        u,
        read_loop-got os w fd e fuel size n memory s bs t (omega arith) (omega arith) answer
            ∙ r
            ∙ ap (λ b. done b u)
                (ap (λ b. b ++ ys) (take-patch memory n bs (omega arith))
                  ∙ append_assoc (take n memory) bs ys
                  ∙ ap (◌++◌ (take n memory)) (sym split)),
        q,
      )
