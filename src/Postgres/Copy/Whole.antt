-- ===== src/Postgres/Copy/Whole.antt =====
-- auto_workflow/connectors/postgres.py, `copy_from`: a file's bytes arrive whole and in order.
use auto_workflow.Base.{
  ◌≡◌, refl, ap, sym, ◌∙◌, subst, ℕ, zero, suc, ◌≤◌, ◌<◌, [], ◌∷◌, ◌++◌, append_assoc, append-nil,
  Bool, true, Str, arith, length, take, drop, take-drop, length-drop, length-take-drop,
  nil_of_length,
}
use auto_workflow.Connectors.{go_on, Answer, gives, Call}
use auto_workflow.Postgres.{ask, Driver, Client}
use auto_workflow.Postgres.Copy.{copy_file, unless_blank}

module _ {W V P : Type 0} (driver : Driver W V P) (cp : ℕ) (written : W → Str)
    (writes : (s : Str) (w : W)
      → (b : Bool) × (w' : W) × (driver.copy_write cp s w ≡ (gives b, w'))
        × (written w' ≡ written w ++ s)) where
  -- The loop came to its end and what is written is this.
  abbrev Copied : Answer Bool × Client W → Str → Type 0
  Copied o s = (o.0 ≡ gives true) × (written o.1.world ≡ s)

  unless_blank-Copied :
      (s rest : Str) (more : Call (Client W) Bool) (c : Client W)
      → (1 ≤ length s → Copied (more c) (written c.world ++ (s ++ rest)))
      → (length s ≡ 0 → rest ≡ [])
      → Copied (unless_blank driver s more c) (written c.world ++ (s ++ rest))
  unless_blank-Copied [] rest more c h k =
      (refl, sym (append-nil (written c.world)) ∙ ap (λ r. written c.world ++ r) (sym (k refl)))
  unless_blank-Copied (x ∷ s) rest more c h k = h (omega arith)

  written-Copied :
      (s rest : Str) (next : Call (Client W) Bool) (c : Client W)
      → ((c' : Client W) → Copied (next c') (written c'.world ++ rest))
      → Copied
          (go_on (ask driver (driver.copy_write cp s) c) (λ b. next))
          (written c.world ++ (s ++ rest))
  written-Copied s rest next c h =
      let (b, w', e, f) = writes s c.world in
      let (r, t) = h (record c { world = w' }) in
      rw (e) (r, t ∙ ap (λ ys. ys ++ rest) f ∙ append_assoc (written c.world) s rest)

  -- If each write appends its chunk to what is written, the loop of copy_from over a file ends
  -- within one more round than the file has bytes, and has appended exactly its bytes.
  pub copy_file-written :
      (fuel : ℕ) (bytes : Str) (c : Client W)
      → length bytes < fuel
      → ((copy_file driver fuel cp bytes c).0 ≡ gives true)
        × (written (copy_file driver fuel cp bytes c).1.world ≡ written c.world ++ bytes)
  unfolding copy_file
  copy_file-written zero bytes c h = absurd (omega arith)
  copy_file-written (suc fuel) bytes c h =
      let s = take 8192 bytes in
      let rest = drop 8192 bytes in
      subst (λ ys. Copied (copy_file driver (suc fuel) cp bytes c) (written c.world ++ ys))
        (take-drop 8192 bytes)
        (unless_blank-Copied s rest _ c
          (λ l.
            written-Copied s rest (copy_file driver fuel cp rest) c
              (λ c'. copy_file-written fuel rest c' (omega (arith, length-take-drop 8192 bytes))))
          (λ l.
            nil_of_length rest
              (omega (arith, length-take-drop 8192 bytes, length-drop 8192 bytes))))
