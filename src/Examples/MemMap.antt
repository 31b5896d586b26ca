-- ===== src/Examples/MemMap.antt =====
-- The theorems on mem_map at one reading and writing of 100 bytes across the end of a page.
use driver_module_test.Prelude.{◌+◌, ◌%◌, pos, false, ◌≡◌, arith}
use driver_module_test.Kernel.{St, and_then, final}
use driver_module_test.Kernel.After.{After}
use driver_module_test.Kernel.Held.{Resource, held}
use driver_module_test.MemMap.{Globals}
use driver_module_test.MemMap.Read.{mem_map_read}
use driver_module_test.MemMap.Read.Content.{Reads, mem_map_read-Reads}
use driver_module_test.MemMap.Read.Returns.{Returns, mem_map_read-Returns}
use driver_module_test.MemMap.Read.Balance.{mem_map_read-held}
use driver_module_test.MemMap.Write.{mem_map_write}
use driver_module_test.MemMap.Write.Content.{Writes, mem_map_write-Writes}
use driver_module_test.MemMap.Write.Balance.{mem_map_write-held}
use driver_module_test.MemMap.Mmap.{Vma, mem_map_mmap, Maps, mem_map_mmap-Maps}
use driver_module_test.MemMap.Seek.{mem_map_lseek, Seeks, mem_map_lseek-Seeks}
use driver_module_test.MemMap.Init.{MemMapDev, mem_map_init, mem_map_exit}
use driver_module_test.MemMap.Init.Release.{mem_map_life, fresh, leak}
use driver_module_test.Examples.{obliging, obliging-Serves, at_start}

abbrev pub open_file : St Globals
open_file = at_start (record { ppos = 4090; phys = λ a. a % 251; page_map = λ a. 0 })

mem_map_read-Reads_example :
    After
      (λ n t. Reads obliging obliging-Serves 512 100 520 open_file n t)
      (λ _. ⊥)
      (mem_map_read obliging 512 100 open_file)
mem_map_read-Reads_example =
    mem_map_read-Reads obliging obliging-Serves 512 100 520 open_file (omega arith)

mem_map_read-Returns_example :
    After (Returns obliging 100 open_file) (λ _. ⊥) (mem_map_read obliging 512 100 open_file)
mem_map_read-Returns_example = mem_map_read-Returns obliging 512 100 open_file

mem_map_write-Writes_example :
    After
      (λ n t. Writes obliging obliging-Serves 4100 512 100 open_file n t)
      (λ _. ⊥)
      (mem_map_write obliging 512 100 open_file)
mem_map_write-Writes_example =
    mem_map_write-Writes obliging obliging-Serves 4100 512 100 open_file (omega arith)

mem_map_read-held_example :
    After
      (λ _ t. held (Resource.memory 4096) t.history ≡ held (Resource.memory 4096) open_file.history)
      (λ _. ⊥)
      (mem_map_read obliging 512 100 open_file)
mem_map_read-held_example =
    mem_map_read-held obliging 512 100 open_file (Resource.memory 4096) obliging-Serves

mem_map_write-held_example :
    After
      (λ _ t.
        held (Resource.mapping 4096) t.history ≡ held (Resource.mapping 4096) open_file.history)
      (λ _. ⊥)
      (mem_map_write obliging 512 100 open_file)
mem_map_write-held_example =
    mem_map_write-held obliging obliging-Serves 512 100 open_file (Resource.mapping 4096)

abbrev area : Vma
area = record { vm_start = 65536; vm_end = 73728; vm_pgoff = 5; vm_page_prot = 7 }

mem_map_mmap-Maps_example :
    After
      (λ r t. Maps obliging false area open_file r t)
      (λ _. ⊥)
      (mem_map_mmap obliging false area open_file)
mem_map_mmap-Maps_example =
    mem_map_mmap-Maps obliging false area open_file (omega arith) (omega arith)

mem_map_lseek-Seeks_example :
    After (λ n t. Seeks 10 1 open_file n t) (λ _. ⊥) (mem_map_lseek 10 1 open_file)
mem_map_lseek-Seeks_example = mem_map_lseek-Seeks 10 1 open_file (omega arith)

abbrev unloaded_device : St MemMapDev
unloaded_device = at_start (record { dev = 0; major = pos 0; minor = pos 0; mem_map_dev_class = 0 })

mem_map_life_example :
    held
      (Resource.chrdev 250)
      (final (
        and_then
          (mem_map_init obliging (fresh obliging unloaded_device))
          (λ _. mem_map_exit obliging))).history
    ≡ held (Resource.chrdev 250) unloaded_device.history
      + leak obliging unloaded_device (Resource.chrdev 250)
mem_map_life_example =
    mem_map_life obliging unloaded_device (Resource.chrdev 250)
      (record { major_ne = λ e. cc; class_ne = λ e. omega arith; device_ne = λ e. omega arith })
