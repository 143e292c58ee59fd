-- ===== src/Lib.antt =====
-- A verification library for the secure firmware (WTMI) of CZ.NIC's Turris MOX, in the directory
-- wtmi of the repository. The firmware runs on the secure processor. It loads the images of the
-- application processor, starts that processor, and then serves its commands, which arrive in a
-- mailbox: an interrupt handler stores them in a queue and the main loop carries them out. The
-- commands read and write one-time programmable fuses, report what is stored in them about the
-- board, hash, sign, and produce random numbers.
--
-- The files, and the code that they model:
--
--   Prelude    the names of the library that the others share; lists and arrays.
--   Bits       shifts, 8, 16, 32 and 64-bit words, and lemmas on fields of bits; Split cuts an or
--              and an and at a bit.
--   Bignum     wtmi/crypto.c: numbers of several words (bn_add, bn_cmp, bn_modulo, bn_addmod). Value
--              is the number that an array stands for; Sum, Compare and Modulo are about it.
--   Bus        wtmi/io.h: readl, writel, setbitsl and the delays. The devices are a parameter, a
--              state with a read, a write and a pause, of which nothing is assumed; a function of
--              the firmware takes that state and returns a result, a value or an error number. Wait
--              is for code that may wait for a device for ever.
--   Mbox       wtmi/mbox.c and wtmi/mbox.h. Mailbox holds the static variables, register_cmd is
--              mbox_register_cmd, Status has the macros of the status word, Wire the operations
--              that touch registers: mbox_irq_handler with find_handler, accept and enqueue as its
--              parts, process_commands (mbox_process_commands) with serve and dequeue, mbox_send.
--              Queue views the ring of requests as a list, Invariant says what holds of the static
--              variables between operations, Interrupt, Arrivals and Serving are about the two sides
--              of the queue, and Reach lets them run in any order. A handler is a function from the
--              arguments, the output words and the devices.
--   Crypto     wtmi/crypto.c: Engine drives the two engines, for points (ecp_…) and for arithmetic
--              (zmodp_op), as devices on the bus; Ecdsa has ecdsa_sign, ecdsa_verify and the
--              generation of the key, over paranoid_rand as a parameter (Random); InRange is about
--              the numbers that they accept and store.
--   Debug      wtmi/debug.c: Args has parse_args, Number has _number, Editor the line editor with
--              its history, whose record holds the static variables, and Keys what the characters
--              do, from debug_process down; each that arrives is a call of consume. What is
--              printed is left out. history_find and drop_oldest have fuel for 2048 commands, as
--              many as the history has places. The field faulted says that a command was taken from a
--              null pointer.
--   Hash       wtmi/crypto_hash.c, crypto_hash.h and crypto_dma.h: hw_hash, as a device on the bus.
--   Spi        wtmi/spi.c: spi_init, spi_nor_read_id and spi_nor_read, as a device on the bus; Reading
--              is about the number of bytes that are read.
--   UbootEnv   wtmi/uboot-env.c: uboot_env_for_each and uboot_env_get, over the flash as a
--              parameter; the walk has fuel for 0x10000 rounds, as many as the area has bytes.
--   Efuse      wtmi/efuse.c. Secded is secded_ecc, Raw the register sequences (_efuse_raw_read,
--              efuse_write_enable, efuse_write_disable), Rows the reading functions, Write the
--              writing ones. Functions with pointer results return a Row. Guards, Verified and
--              EccLock hold the proofs about writing.
--   Entropy    wtmi/ebg.c: the ring buffers of random bytes (cbuf_pull, cbuf_push, ebg_rand), which
--              both have 4096 places. Ring reads the array around its end, Parts is about the pieces
--              that do not wrap, Fifo about the whole operations. Source is the entropy device
--              (ebg_next, ebg_rand_sync), Fill is about reading from it. Mixed has ebg_init,
--              ebg_process and paranoid_rand, with wtmi/engine.h and over the hash as a parameter;
--              Paranoid is about the bytes that paranoid_rand stores.
--   Commands   wtmi/main.c: the commands for fuses and cmd_board_info; ApMem has process_ap_mem as
--              the events that it causes, a move of the window or a call of the callback, and
--              check_ap_addr. ApRam carries them out, over the RAM of the application processor as
--              a parameter, and Crypto has the commands that hash, sign and give random numbers;
--              Reverse is about array_reverse_u32 and Refused about cmd_sign. The size of the RAM is
--              the one that get_ram_size keeps. process_ap_mem has fuel for five rounds, as there
--              are four windows.
--   Strings    wtmi/string.c. Memory is a list of bytes, and pointers are places in it.
--   Tim        wtmi/tim.c. Parse finds images and packages in a header, Check has check_tim,
--              load_tim, check_image_hash and load_image. What tim.c calls, the fuses, the flash,
--              the hashes and the check of a signature, is the record Board, a parameter. A header
--              is a record of the fields that the code reads. die() is an outcome of its own, and
--              so is a read through a null pointer.
--   Crc        wtmi/crc32.c. A read behind the buffer is an outcome.
--   Stdio      wtmi/stdio.c: do_number with the flags, the digits and the padding of a number;
--              Format has vfprintf over a list of arguments, of which each is a number or a text.
--              Render writes a format from its pieces, and Reads and Pieces are about reading it
--              again; Shown is what each conversion means. The loop has fuel for one more round
--              than the format has characters.
--   Deploy     wtmi/deploy.c: what is written during production, and reported; get_ram_size of
--              wtmi/ddr.c. Fields, Locked and Complete are about the word of row 42, the rows that
--              are locked already, and the whole of do_deploy.
--   Mdio       wtmi/mdio.c: the management bus of the switch, as a device on the bus.
--   Board      wtmi/board.c: get_board, from the fuses that Deploy has written, or from the
--              management bus and the flash; Fused is about the first.
--   Clock      wtmi/clock.c: the generators and what is read back from them. Presets are the four
--              configurations, Tree is setup_clock_tree; Settled runs it on registers, and Frequency
--              is about the roundings.
--   Uart       wtmi/uart.c, with fputs and puts of wtmi/stdio.c; Text is about what is sent.
--   Avs        wtmi/avs.c: init_avs; Limits is about the voltage that it sets.
--
-- Numbers are natural numbers, and each operation that can wrap around has its width written
-- out. Loops with a known bound take the number of rounds left: 16 arguments, 64 bits, 44 rows,
-- 100000 polls, 5 attempts to program. Loops without one take fuel: mbox_send waits for the
-- host, and when its fuel ends the model's outcome is spinning, the code still waits; one round
-- is enough for a host that reads its messages; ebg_next waits for the entropy device in the
-- same way. The loop of process_commands takes one round for each request that waits or arrives and
-- one to find the queue empty, and process_ap_mem one for each window of 1 GiB, two for a region of
-- at most 1 GiB. The 64 rounds
-- of digit_loop are the size of the buffer.
--
-- An interrupt is a step between operations of the main loop, not inside them: process_commands has
-- the numbers of those that arrive in each of its rounds as an argument. The code takes a request
-- from the queue with interrupts disabled, and the rest of a round reads only the slot of the first
-- request, which Reach treats as being used while interrupts arrive.
--
-- Not modelled: spi_write, the texts that deployment prints, the functions of wtmi/deploy.c that
-- are switched off, the echo of the debug console and its commands, the interrupt controller, the
-- reset sequence with cmd_reboot, the start sequence, memory training and other register sequences
-- of the chip, and wtmi/compressed, a copy of zlib. The caches of tim.c are not modelled either.
pub mod Prelude
pub mod Bits
pub mod Bignum
pub mod Bus
pub mod Mbox
pub mod Crypto
pub mod Debug
pub mod Deploy
pub mod Mdio
pub mod Board
pub mod Avs
pub mod Clock
pub mod Uart
pub mod Hash
pub mod Efuse
pub mod Entropy
pub mod Commands
pub mod Strings
pub mod Tim
pub mod Spi
pub mod UbootEnv
pub mod Crc
pub mod Stdio
