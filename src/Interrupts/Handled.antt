-- ===== src/Interrupts/Handled.antt =====
-- About `interrupt_handler` of IcarusOS/gdt_idt.c, and the port writes of the drivers that it calls.
use cmsi.Base.{ℕ, ◌≡◌, ◌≢◌, refl, sym, ap, ◌∙◌, arith, inl, inr, Bool-cases}
use cmsi.Base.{true, false, List, [], ◌∷◌, ◌++◌, ◌==◌, if◌then◌else◌}
use mathlib.Core.List.{append_assoc, append-nil}
use cmsi.Base.Words.{add32}
use cmsi.Base.Outcome.{ok, stop, panicked}
use cmsi.Screen.{
  Screen, Out, write_char, write_chars, fb_write, fb_move_cursor, fb_clock_write, move_cursor_outs,
}
use cmsi.Keyboard.{convert_to_ascii, echo_keyboard}
use cmsi.Timer.{timer_callback}
use cmsi.Descriptors.{pic_acknowledge}
use cmsi.Paging.Fault.{page_fault}
use cmsi.Interrupts.{Machine, acknowledge, interrupt_handler}
use cmsi.Base.{Bool}

-- The writes to a port.
abbrev pub writes_to : (port : ℕ) → List Out → List ℕ
writes_to port [] = []
writes_to port ((p, v) ∷ os) = if p == port then v ∷ writes_to port os else writes_to port os

pub writes_to-append :
    (port : ℕ) (xs ys : List Out)
    → writes_to port (xs ++ ys) ≡ writes_to port xs ++ writes_to port ys
writes_to-append port [] ys = refl
writes_to-append port ((p, v) ∷ xs) ys = elim (Bool-cases (p == port)) [
  | inl here ↦ rw here (ap (λ l. v ∷ l) (writes_to-append port xs ys))
  | inr other ↦ rw other (writes_to-append port xs ys)
]

-- No write goes to an interrupt controller's command port.
abbrev pub IsQuiet : List Out → Type 0
IsQuiet outs = (writes_to 0x20 outs ≡ []) × (writes_to 0xa0 outs ≡ [])

-- The port writes of `t` are those of `s` and more, none of them to an interrupt controller.
abbrev pub Extends : Screen → Screen → Type 0
Extends s t = (outs : List Out) × (t.ports ≡ s.ports ++ outs) × IsQuiet outs

Extends-refl : (s : Screen) → Extends s s
Extends-refl s = ([], sym (append-nil s.ports), (refl, refl))

Extends-trans : (s t u : Screen) → Extends s t → Extends t u → Extends s u
Extends-trans s t u (os, e, (q₁, q₂)) (ps, f, (r₁, r₂)) = (
  os ++ ps,
  f ∙ ap (λ l. l ++ ps) e ∙ append_assoc s.ports os ps,
  (writes_to-append 0x20 os ps ∙ rw (q₁, r₁) refl, writes_to-append 0xa0 os ps ∙ rw (q₂, r₂) refl),
)

-- The state in a branch of a test.
Extends-if :
    (b : Bool) (s t u : Screen) → Extends s t → Extends s u → Extends s (if b then t else u)
Extends-if true s t u p q = p
Extends-if false s t u p q = q

write_char-Extends : (c : ℕ) (s : Screen) → Extends s (write_char c s)
unfolding write_char fb_move_cursor move_cursor_outs
write_char-Extends c s =
    Extends-if (c == 10) s _ _ (_, refl, (refl, refl))
      (Extends-if (c == 8) s _ _ (_, refl, (refl, refl)) (Extends-refl s))

write_chars-Extends : (cs : List ℕ) (s : Screen) → Extends s (write_chars cs s)
unfolding write_chars
write_chars-Extends [] s = Extends-refl s
write_chars-Extends (c ∷ cs) s =
    Extends-trans s (write_char c s) (write_chars cs (write_char c s)) (write_char-Extends c s)
      (write_chars-Extends cs (write_char c s))

fb_write-Extends : (cs : List ℕ) (s : Screen) → Extends s (fb_write cs s)
unfolding fb_write fb_move_cursor move_cursor_outs
fb_write-Extends cs s =
    Extends-trans s (write_chars cs s) (fb_write cs s) (write_chars-Extends cs s)
      (_, refl, (refl, refl))

-- What an interrupt leaves; the port writes of the drivers come in front of the acknowledgement.
pub interrupt_handler_lem :
    (sprintf : ℕ → List ℕ) (interrupt error_code scan_code : ℕ) (m : Machine)
    → ((interrupt ≡ 14)
        → interrupt_handler sprintf interrupt error_code scan_code m ≡ stop panicked)
      × ((interrupt ≢ 14)
          → (m' : Machine) × (interrupt_handler sprintf interrupt error_code scan_code m ≡ ok m')
            × (m'.ticks ≡ (if interrupt == 32 then add32 m.ticks 1 else m.ticks))
            × (m'.keyboard ≡ (
                if interrupt == 33 then (convert_to_ascii scan_code m.keyboard).1 else m.keyboard))
            × ((outs : List Out) × (m'.screen.ports
                  ≡ (m.screen.ports ++ outs) ++ pic_acknowledge interrupt)
                × IsQuiet outs))
unfolding interrupt_handler acknowledge timer_callback echo_keyboard page_fault fb_clock_write
interrupt_handler_lem sprintf interrupt error_code scan_code m = (
  λ e.
      let not_timer : (interrupt == 32) ≡ false = ground arith in
      let fault : (interrupt == 14) ≡ true = ground arith in rw (not_timer, fault) refl,
  λ h.
      let no_fault : (interrupt == 14) ≡ false = ground arith in
      elim (Bool-cases (interrupt == 32)) [
        | inl timer ↦
            let not_key : (interrupt == 33) ≡ false = ground arith in
            let (ticks, screen) = timer_callback sprintf (m.ticks, m.screen) in
            (
              acknowledge interrupt (record m { ticks = ticks; screen = screen }),
              rw timer refl,
              rw timer refl,
              rw not_key refl,
              (
                [],
                ap (λ l. l ++ pic_acknowledge interrupt) (sym (append-nil m.screen.ports)),
                (refl, refl),
              ),
            )
        | inr not_timer ↦ elim (Bool-cases (interrupt == 33)) [
          | inl key ↦
              let c = (convert_to_ascii scan_code m.keyboard).0 in
              let (keyboard, screen) = echo_keyboard scan_code (m.keyboard, m.screen) in
              let (outs, more, quiet) =
                Extends-if (c == 0) m.screen m.screen (fb_write (c ∷ []) m.screen)
                  (Extends-refl m.screen) (fb_write-Extends (c ∷ []) m.screen) in
              (
                acknowledge interrupt (record m { keyboard = keyboard; screen = screen }),
                rw (not_timer, no_fault, key) refl,
                rw not_timer refl,
                rw key refl,
                (outs, ap (λ l. l ++ pic_acknowledge interrupt) more, quiet),
              )
          | inr rest ↦ (
            acknowledge interrupt m,
            rw (not_timer, no_fault, rest) refl,
            rw not_timer refl,
            rw rest refl,
            (
              [],
              ap (λ l. l ++ pic_acknowledge interrupt) (sym (append-nil m.screen.ports)),
              (refl, refl),
            ),
          )
        ]
      ],
)
