-- ===== src/Tests/Phases.antt =====
-- src/p3test.c with a table of structures of 8 KB each.
use progetto_so.Base.{◌+◌, ◌*◌, ◌≡◌, refl, pos, null, List, [], ◌++◌, arith, Outcome, Leaves}
use progetto_so.Support.Stack.{IsStack}
use progetto_so.Users.Defs.{Call, Image, Users, test_phase_3}
use progetto_so.Users.Starts.{waits, IsTable, pushed, Requests, test_phase_3-Started}
use progetto_so.Tests.Kernels.{arch}
use progetto_so.Tests.Pages.{pager}

abbrev image : Image
image = record {
  uproc_supp = λ i. 0x20010000 + 8192 * i;
  handle_page_fault = 0x20003000;
  handle_support_level_exceptions = 0x20004000;
}

image-IsTable : IsTable image
image-IsTable = (λ i. omega arith, λ i j h. omega (arith, h))

abbrev users : Users
users = record {
  supps = record { next_supp = λ _. 7; prev_supp = λ _. 7; free_supp_tp = null };
  pager = pager;
  sup_except_context = λ _ _. record { stack_ptr = 0; status = 0; pc = 0 };
  device_semaphores = λ _. pos 0;
  printer_semaphores = λ _. pos 0;
  term_write_semaphores = λ _. pos 0;
  term_read_semaphores = λ _. pos 0;
  master_sem = pos 0;
  uproc_state = record {
    gpr = λ _. 0;
    entry_hi = 0;
    cause = 0;
    status = 0;
    pc_epc = 0;
    hi = 0;
    lo = 0;
  };
  ram_top = 0x20040000;
  calls = [];
}

test_phase_3-Started_example :
    Leaves
      (Outcome.syscall 2)
      (λ t.
        IsStack t.supps.next_supp t.supps.prev_supp null t.supps.free_supp_tp []
        × ((rs : List Call) × (t.calls ≡ [] ++ (rs ++ waits 8))
            × Requests arch 1 (pushed image 8 0 []) rs))
      (test_phase_3 arch image users)
test_phase_3-Started_example =
    test_phase_3-Started arch image users image-IsTable (omega arith) refl
