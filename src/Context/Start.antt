-- ===== src/Context/Start.antt =====
-- A context that init_shared_context of src/shm_context.c has just set up, as its one process
-- sees it: the arena 0 is the context's own and its first chunk is the context itself.
use shmmalloc.Base.{ℕ, true, false, List, [], ◌∷◌, replicate, ◌==◌, if◌then◌else◌}
use shmmalloc.Position.{shm_arena_unit_size}
use shmmalloc.RbTree.{Node, red}
use shmmalloc.Run.{Run}
use shmmalloc.Medium.{Medium}
use shmmalloc.Context.{Arena, arena_empty, arena_context, Chunk, chunk_empty, Context}

-- init_shm_shared_field.
abbrev pub shared_arenas : ℕ → ℕ → Arena
shared_arenas shmid i =
    if i == 0
    then record {
      type = arena_context;
      shmid = shmid;
      index = 0;
      size = shm_arena_unit_size;
      used = 1;
      chunks = 1 ∷ replicate 7 0;
    }
    else record {
      type = arena_empty;
      shmid = 0;
      index = 0;
      size = 0;
      used = 0;
      chunks = replicate 8 0;
    }

abbrev empty_node : {K : Type 0} → K → Node K
empty_node v = record { s = 0; p = 0; left = 0; right = 0; v = v; color = red }

abbrev no_bits : List ℕ
no_bits = 0 ∷ 0 ∷ 0 ∷ 0 ∷ []

abbrev empty_medium : Medium
empty_medium = record {
  max_size = 0;
  free_size = 0;
  tree = record { nodes = λ x. empty_node (record { size = 0; index = 0 }); root = 0; size = 0 };
  bitmap_type = no_bits;
  bitmap_up = no_bits;
  bitmap_down = no_bits;
}

abbrev empty_chunk : Chunk
empty_chunk = record {
  type = chunk_empty;
  pos = 0;
  small = record { used = 0; bitmap = no_bits };
  medium = empty_medium;
}

abbrev empty_run : Run
empty_run = record {
  pos = 0;
  conf_index = 0;
  elemsize = 0;
  total = 0;
  used = 0;
  free = 0;
  words = λ x. 0;
}

-- `shmid` is the segment of the context.
abbrev pub start : ℕ → Context
start shmid = record {
  init_flag = 0x1020304a;
  key = 100;
  count = 1;
  user_data = 0;
  arenas = shared_arenas shmid;
  run_pool = λ x. record { root = 0; size = 0 };
  chunk_small_pool = record { root = 0; size = 0 };
  chunk_medium_pool = record { root = 0; size = 0 };
  run_nodes = λ x. record { rank = 0; root = 0; left = 0; right = 0 };
  runs = λ x. empty_run;
  chunk_nodes = λ x. empty_node (record { index = 0; maxsize = 0 });
  chunks = λ x. empty_chunk;
  addrs = λ i.
      if i == 0
      then record { mapped = true; shmid = shmid }
      else record { mapped = false; shmid = 0 };
}
