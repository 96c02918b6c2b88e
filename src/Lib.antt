-- ===== src/Lib.antt =====
-- armv2 emulator, the Python side: the two debugger protocols with their framing, the tapes, the
-- display, the processor's binding, the debugger with its disassembler, and the buffers of shapes and screens.
--
-- comms/custom.py, the emulator's own debugger protocol, is Custom: the message classes and
-- `to_binary` (Custom/Message), `from_binary` of each class and `message_factory` (Custom/Factory),
-- the symbol lookup (Custom/Symbols) and BaseHandler's reassembly of frames (Custom/Framing).
--
-- comms/comms.py is Comms: send and disconnect (Comms/Transport), the reading of a connection by the
-- handler of comms/custom.py, on a list of what its socket gives (Comms/Handler), and the two threads
-- of a client as steps (Comms/Threads).
--
-- comms/gdb.py, gdb's remote protocol, is Gdb: Python's integers as text (Gdb/Hex), checksum,
-- byte_swap and the escapes (Gdb/Packet), the loop of BaseHandler.process_data that cuts a read
-- into messages (Gdb/Reader), the messages from gdb with their constructors (Gdb/Request), the
-- messages to gdb with `to_binary` (Gdb/Reply), the handlers and message_factory (Gdb/Session), and
-- process_data (Gdb/Session/Loop). A call's effects are a list of events: what is sent on the socket
-- and what is handed to `comms.handle`, in order, with `self.done` and the exception that ended the
-- call.
--
-- The tapes are Tapes: create.py's to_synapse_format and to_binary_format (Tapes/Format), the
-- blocks that ProgramTape.from_binary of tapes.py cuts from a tape's data, with the padding of
-- build_samples (Tapes/Blocks), and the cursor of get_byte, advance_block and rewind
-- (Tapes/Player). What ProgramTape does as time passes, byte_ready, trim_cache, update and
-- fast_forward, is Tapes/Player/Timing; a position is of a type of numbers that is an argument.
-- popcnt.pyx is Tapes/Samples: arrays of a fixed size, written without a test of the bounds, in which
-- a write out of bounds gives none. Tapes/Recorder is build_samples, which joins the two.
--
-- create.py links programs in Linker: process_relocation (Linker/Relocation), get_symbols with the
-- names of the PLT (Linker/Names), pre_link and create_binary (Linker/Image). What the ELF library
-- reads of a file is an argument. Linker/Image/Sorting follows a program's symbols into the debugger.
--
-- The devices of hardware.py are Devices: the memory map of Display (Devices/Display) with its byte
-- and word callbacks, the words that hold the pixels, and the redrawing of a cell. Each part of the
-- memory is a function on its indices, and the callbacks' tests keep an index in its range.
-- TapeDrive (Devices/TapeDrive) keeps its flags and the interrupts that it raised; the tape is a
-- record of operations, the ones of ProgramTape that the drive calls. Its update and the stripes'
-- colours are Devices/TapeDrive/Frames, and Devices/TapeDrive/Program puts a ProgramTape in. Keyboard (Devices/Keyboard)
-- has the mask of pressed keys, a number whose binary digits are the keys, and the ring of presses.
--
-- debugger.py is Debugger: the files that gdb opens (Debugger/Files) and the breakpoints with stop,
-- step, next and continue (Debugger/Breakpoints). The machine is a record of operations, with named
-- laws where a theorem needs them; those of breakpoints are about the words of the memory, since the
-- core keeps a breakpoint for each. The replies are those of Gdb/Reply.
--
-- disassemble.py is Disassembler: the tables of names and the fields of a word
-- (Disassembler/Fields), the operands (Disassembler/Operands), the classes of instructions
-- (Disassembler/Instructions, Transfers and Branches), InstructionFactory and sets_lr
-- (Disassembler/Factory) and the listing of a stretch of memory (Disassembler/Memory). A class is a
-- function from the word to its text's parts; the memory is an argument, which raises where there is
-- no processor.
--
-- armv2.pyx, the processor as Python sees it, is Binding: words through the tables of pages
-- (Binding/Words), bytes and the slices of ByteMemory (Binding/Bytes), memory_map and
-- loaded_libraries (Binding/Maps) and the registers (Binding/Registers). The state of the devices is
-- a parameter, on which a page's callbacks work; the core in C is not modelled. Debugger/Handlers has
-- the debugger's messages for registers and memory over it, with pc_value and cpsr of hardware.py's
-- Machine, and Debugger/Symbols load_symbols with the bytes that create.py writes for it.
--
-- Machine of hardware.py is Machine (Machine/Thread): the thread that steps the processor and the
-- calls of other threads, as turns from one wait of its condition to the next, over a processor that
-- is an argument. What can happen is the relation Turn, and a run is Reach.
--
-- drawing is Drawing, as far as it is more than calls of OpenGL: ShapeBuffer of drawing/quads.py,
-- which gives out places in one array and takes them back (Drawing/Shapes), the shapes themselves
-- (Drawing/Quads), and the free screens of CrtBuffer in drawing/opengl.py (Drawing/Screens). The
-- clients of the buffer and of the screens are traces of calls that delete or return only what they
-- hold.
--
-- Bytes and texts are lists of numbers, Python's integers from 0 on are native numbers, and what
-- can raise returns a Result over the exceptions of Common/Exceptions. `struct`, `bisect`, `split`
-- and `join` are written out as Python defines them (Common/Bytes, Common/Text). Log output is left
-- out.
--
-- Loops whose length is not that of a list take fuel: `Custom.Framing.drain` is given the length of
-- the buffer and one more, since each round takes a header of four bytes; `symbols_loop` the length
-- of its input, since a symbol takes five bytes; `bisect_loop` the length of the list and one more.
-- In Gdb, `scan` is given the length of the data and takes a byte in each round, `numbers` the
-- length of the text, and `hex_digits` and `decimal_digits` the number itself, which a division
-- makes smaller. In Debugger/Symbols, `load_loop` is given two rounds more than the memory has
-- bytes, since a symbol takes five, and `disassemble_loop` has as many rounds as the range has
-- addresses. In Tapes, `blocks_loop` is given the length of the data, since each round takes four
-- bytes at least.
--
-- Not modelled: the sockets and the servers' threads of comms/comms.py, gdb's `handle`, Clock, the rest of the debugger, the sound of tapes, the files that create.py reads and
-- writes, and the shaders, textures and drawing calls.
pub mod Common
pub mod Custom
pub mod Gdb
pub mod Tapes
pub mod Devices
pub mod Debugger
pub mod Drawing
pub mod Disassembler
pub mod Binding
pub mod Machine
pub mod Linker
pub mod Comms
