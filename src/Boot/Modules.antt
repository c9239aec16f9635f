-- ===== src/Boot/Modules.antt =====
-- How `kmain` of IcarusOS/kmain.c ends.
use cmsi.Base.{ℕ, ◌+◌, List, [], ◌∷◌, ◌++◌}
use cmsi.Base.Outcome.{Outcome}
use cmsi.Memory.{load32}
use cmsi.Screen.{Screen, Out, fb_write, clear_screen}
use cmsi.Screen.Within.{Within}
use Prim.Native.String.{String}
use cmsi.Descriptors.{gdt_init, idt_init, pic_init}
use cmsi.Boot.{Boot, Surroundings, screen_of, with_screen, put_all}
use cmsi.Boot.{codes, welcome}
use cmsi.Base.{List}

-- The screen when the welcome is on it and `bytes` goes to the serial port.
abbrev greeted : Screen → (bytes : List Out) → Screen
greeted s bytes =
    let written = fb_write (codes welcome) (clear_screen s) in
    record written { ports = written.ports ++ bytes }

-- The screen behind `set_up`.
abbrev set_up_screen : Surroundings Boot → Screen → (bytes : List Out) → Screen
set_up_screen env s bytes =
    let named =
      put_all (env.format "Address of idt_init() = %x \n" (env.idt_init_address ∷ []))
        (greeted s bytes) in
    put_all (env.format "timer initiated \n" []) (record named {
      ports = (named.ports ++ pic_init) ++ ((0x43, 0x36) ∷ (0x40, 0x37) ∷ (0x40, 0x5d) ∷ []);
    })

-- The state behind `set_up`, with `reads` reads of the status of the serial port.
abbrev set_up_state :
    Surroundings Boot → (initial_stack : ℕ) → Boot → (bytes : List Out) → (reads : ℕ) → Boot
set_up_state env initial_stack b bytes reads =
    with_screen
      (record b {
        kernel = record b.kernel { initial_esp = initial_stack };
        reads = reads;
        gdt = gdt_init;
        idt = idt_init env.interrupt_handler;
      })
      (set_up_screen env (screen_of b) bytes)

abbrev pub mods_count : (ebx : ℕ) → Boot → ℕ
mods_count ebx b = load32 b.kernel.memory (ebx + 20)

-- The screen when `kmain` has printed the flags.
abbrev flagged : Surroundings Boot → (ebx : ℕ) → Boot → Screen
flagged env ebx b =
    put_all (env.format "mbinfo flags: %x \n" (load32 b.kernel.memory ebx ∷ [])) (screen_of b)
