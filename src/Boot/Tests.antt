-- ===== src/Boot/Tests.antt =====
-- The theorem about `kmain` at a start without modules.
use cmsi.Base.{◌+◌, none, []}
use cmsi.Base.{take}
use Prim.Native.String.{String}
use cmsi.Base.Outcome.{ok}
use cmsi.Boot.{Boot, Surroundings}
use cmsi.Base.{◌*◌}

-- A library that prints the first number of a text as a character, a port that is ready at once, and a
-- program that does nothing.
abbrev env : Surroundings Boot
env = record {
  format = λ text. take 1;
  status = λ read. 0x60;
  interrupt_handler = λ n. 0x10_0000 + 16 * n;
  idt_init_address = 0x10_2000;
  in_tasking = record { esp = 0x10_5fe0; ebp = 0x10_5ff0 };
  in_fork = record { esp = 0xdfff_ffc0; ebp = 0xdfff_ffd0 };
  eip = 0x10_3000;
  start_program = λ address b. ok b;
}

abbrev start : Boot
start = record {
  kernel = record {
    memory = λ a. 0;
    placement_address = 0;
    kheap = none;
    kernel_directory = 0;
    current_directory = 0;
    frames = 0;
    nframes = 0;
    current_task = 0;
    ready_queue = 0;
    next_pid = 1;
    initial_esp = 0;
  };
  cursor_position = 0;
  ports = [];
  reads = 0;
  gdt = ([], 0);
  idt = ([], 0);
}
