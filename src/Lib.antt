-- ===== src/Lib.antt =====
-- The Python code of the flasher: the tools that install and select the build tools (jonchki/), the
-- generator of the SPI flash table (site_scons/) and the regression tests (regression/).
--
-- Text that the code takes apart is a list of code points (Common.Words), paths follow Python's
-- posixpath (Common.Paths), numbers are the native natural numbers. Exceptions are `none` or a
-- constructor of a result type. Clocks, the network, the environment, the outputs of commands and the
-- contents of files are arguments.
--
--   Progress      jonchki/jonchkihere.py, class ProgressOutput. `Progress` holds the attributes, and
--                 `update` runs the loop on fuel: a byte more than the data is enough.
--   Download      jonchki/jonchkihere.py, download_to_file, which feeds the bar with the chunks. What
--                 each read of the connection and each write to the file does is a function of its index;
--                 the loop runs on fuel, of which more than the number of chunks is enough.
--   Archive       jonchki/jonchkihere.py, __extract_archive: the check of each member against the
--                 folder, and the order in which tar and zip archives check and unpack.
--   Platform      jonchki/platform_detect.py and its copies in jonchki/jonchkihere.py and
--                 regression/common/simpelTools/src/platform_detect.py.
--   CliArgs       jonchki/cli_args.py, which takes the detected platform.
--   Jasonixer     regression/common/SW_Test_flasher/src/class_jasonixer.py, the description of a chip
--                 and, in Jasonixer.Boards, of boards and memories.
--   Env           regression/common/ptb_framework/src/env_flasher.py: Env.Masks is the filter of the
--                 chips, Env.Ports reads the outputs of "list_interfaces" and "detect_netx",
--                 Env.Identify runs both commands, Env.Installation is runInstallation over the
--                 operations of InstallSystem, with extractTarGz, extractZip and copyfileByWildcard of
--                 simpelTools/src/filetools.py.
--   SpiFlashes    site_scons/spi_flashes.py: SpiFlashes.Values is get_value, SpiFlashes.Commands and
--                 SpiFlashes.Entries the values and the checks of one entry, SpiFlashes.Table the
--                 loop of spiflashes_action, SpiFlashes.Lines the lines of its template. XML nodes,
--                 `int(text, 0)` and number formats are parameters.
--   Batch         regression/common/simpelTools/src/command_carrier.py, eval_batch_result: the summary
--                 of a batch of commands, over the operations of SummaryFiles. Batch.Lines has its loop.
--   Crc           regression/common/simpelTools/src/find_correct_crc.py: the checksum of a flash word
--                 of 64 bits and the comparisons of two checksums.
--   Install       jonchki/jonchkihere.py, __check_jonchki_version (Install.Check) and install
--                 (Install.Names, Install.Steps), over the operations of Install.System: files,
--                 processes, network and archives on a state of any type. They call Platform,
--                 Download and Archive. A download that has not ended after as many reads as its
--                 field `patience` says has no result there.
--   VcsId         jonchki/vcs_id.py, get: the version of the project from the description of git.
--   Files         the store that Python's os and shutil work on: the places that are there, by the
--                 lists of their names, and those at which the system refuses. A path is the list of
--                 its names, the last one first.
--   Logfiles      regression/common/simpelTools/src/class_logfilemanager.py, class LogfileManager, and
--                 mkdirSkipExistence of filetools.py. The attribute unique_log_index and the disk are
--                 the state; the folders follow from the root. The contents of archives and JSON
--                 files are given by `Formats`.
--   Carriers      regression/common/simpelTools/src/command_carrier.py, runCommandBase and
--                 batch_command_base, over the operations of Carriers.System, and
--                 strip_command_arguments of magic_strings.py (Carriers.Texts). The working directory
--                 is a part of the world, the rest of it is a state of any type.
--   Dyntest       regression/common/SW_Test_flasher/src/class_dyntest.py: Dyntest has the parameters,
--                 Dyntest.Commands the commands, Dyntest.Run the batch on the disk of the manager,
--                 its errors and the archive. It calls Carriers, Batch and Logfiles.
--   Regression    regression/test_regression.py: Regression.Selection chooses the memories of the
--                 connected chip, Regression has the six tests over a parameter that runs one test
--                 case, Regression.Results the summary and the exit code.
--   TestCases     regression/FLT_STANDARD, FLT_HASH, FLT_TIMING, NXTFLASHER_51 and NXTFLASHER_55: the
--                 commands of the test cases, with "%x" in TestCases.Hexadecimal; TestCases.Data has
--                 their random test data and generate_randome_file_by_size_and_name of filetools.py.
--   Wfp           regression/WFP, WFP_OS, WFP_MULTIFLASH and WFP_MULTITARGET: Wfp.Sizes is
--                 get_random_file_sizes, Wfp.Commands the conversion of the commands with their user
--                 inputs, Wfp.Package the files of a package and its wfp.xml, Wfp.Verify the commands;
--                 Wfp.MultiFlash and Wfp.MultiTarget are the tests with several memories. The numbers
--                 of the generator are a function, `random.randrange` maps them to its range.
--                 generate_random_file_by_size_and_name, which no module defines, shutil.rmtree and
--                 the text of an element tree are parameters.
--
-- Not modelled: jonchki/dulwich is a copy of another project; build_artifact.py, SConstruct and
-- jonchki/filter.py configure and call external tools; the flasher itself (src/, lua/) is C and Lua
-- that the Python code reaches by commands; of the regression tests, run_batch_commands of the WFP
-- tests, which passes an argument too many, config.py, the arguments and the other file tools;
-- run_search of find_correct_crc.py, which nothing calls. Logging is left out everywhere, and so are the texts of messages. Floats occur
-- in the percentage of the progress bar, where below 2 ^ 45 bytes the truncated quotient of the source
-- is the division of the integers.
pub mod Common
pub mod Archive
pub mod Batch
pub mod Carriers
pub mod CliArgs
pub mod Crc
pub mod Download
pub mod Dyntest
pub mod Env
pub mod Files
pub mod Install
pub mod Jasonixer
pub mod Logfiles
pub mod Platform
pub mod Progress
pub mod Regression
pub mod SpiFlashes
pub mod TestCases
pub mod VcsId
pub mod Wfp
