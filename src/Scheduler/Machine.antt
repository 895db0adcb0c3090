-- ===== src/Scheduler/Machine.antt =====
-- What process/scheduler.c uses of the rest of the kernel: memory/pmm.c, memory/paging.c,
-- process/user_process.c and the memory of the machine, whose words have addresses. A call acts on a
-- world of any type; `user_process_reap_task` may panic, which is `none`.
use efes_os.Base.{ℕ, Bool, Option}

module _ (World : Type 0) where
  pub record Machine : Type 0 where
    pub pmm_alloc_block : World → ℕ × World
    pub pmm_free_block : ℕ → World → World
    pub paging_map_page : ℕ → ℕ → ℕ → World → Bool × World
    pub paging_unmap_page : ℕ → World → ℕ × World
    pub paging_is_mapped : ℕ → World → Bool
    pub paging_current_directory : World → ℕ
    pub paging_kernel_directory : World → ℕ
    pub paging_switch_address_space : ℕ → World → Bool × World
    pub paging_address_space_is_valid : ℕ → World → Bool
    pub paging_validate_user_execute : ℕ → World → Bool
    pub paging_validate_user_range : ℕ → ℕ → Bool → World → Bool
    pub user_process_reap_task : ℕ → ℕ → World → Option (Bool × World)
    pub load : ℕ → World → ℕ
    pub store : ℕ → ℕ → World → World
    pub trampoline : ℕ
